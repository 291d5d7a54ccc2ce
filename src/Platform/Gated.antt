-- ===== src/Platform/Gated.antt =====
-- What a suspension does to the requests of the tenant (platform/ops.go with auth/middleware.go
-- and photo/http.go).
use sdano.Base.{
  ℕ, Bool, true, false, ◌≡◌, refl, sym, subst, Option, some, List, [], ◌∷◌, String, ◌==◌, ok, err,
  Result-cases, inl, inr, arith, if◌then◌else◌,
}
use sdano.Base.Table.Laws.{select_one-update, select_one_fits}
use sdano.Store.{Store, Tenant, TenantStatus, suspended, WorkExecution, Photo}
use sdano.Queries.Auth.{get_tenant, get_tenant_status}
use sdano.Queries.Worker.{get_execution}
use sdano.Queries.Photos.{get_photo}
use sdano.Queries.Tenants.{get_tenant_suspension, ops_set_tenant_status}
use sdano.Session.{Principal}
use sdano.Middleware.{
  Faults, Request, authorize, check_role, check_status, is_mutation, tenant_suspended,
}
use sdano.Photo as Photos
use sdano.Photo.{
  World, PhotoError, PresignInput, presign_checks, presign, ConfirmInput, confirm_checks, confirm,
  check_execution, is_evidence, is_before, evidence_suspension_gate, load_suspension,
}
use sdano.Photo.Uploads.{check_execution-Accepts, confirm_checks-Confirmable}
use sdano.Photo.Presigned.{presign_checks_lem}
use sdano.Platform.{OpsStatement, set_status_tx, ops_suspend}
use sdano.Platform.Suspension.{set_status_tx-tenants}

set_status-row :
    (id : ℕ) (status : TenantStatus) (at : Option ℕ) (ts : List Tenant) (t : Tenant)
    → get_tenant id ts ≡ some t
    → get_tenant id (ops_set_tenant_status id status at ts)
      ≡ some (record t { status = status; suspended_at = at })
unfolding get_tenant ops_set_tenant_status
set_status-row id status at ts t h = ground (
  arith,
  select_one-update (λ (r : Tenant). r.id == id) (λ r. r.id == id)
      (λ r. record r { status = status; suspended_at = at }) ts (λ r. refl),
  select_one_fits (λ (r : Tenant). r.id == id) ts {r = t},
)

-- The row of the tenant after a suspension that succeeds.
suspended-row :
    (fault : OpsStatement → Bool) (now id : ℕ) (note : String) (db db' : Store) (t : Tenant)
    → get_tenant id db.tenants ≡ some t
    → ops_suspend fault now id note db ≡ (db', ok tt)
    → get_tenant id db'.tenants ≡ some (record t { status = suspended; suspended_at = some now })
unfolding ops_suspend
suspended-row fault now id note db db' t h s =
    elim (Result-cases
      (set_status_tx fault id suspended (some now) "tenant.suspend" (("note", note) ∷ []) db)) [
        | inr (e, f) ↦ absurd (ground arith)
        | inl (db1, f) ↦
            let written =
              set_status_tx-tenants fault id suspended (some now) "tenant.suspend"
                (("note", note) ∷ []) db db1 f in
            let same : db'.tenants ≡ db1.tenants = ground arith in
            rw (same, written) (set_status-row id suspended (some now) db.tenants t h)
      ]

row_suspension :
    (id now : ℕ) (db : Store) (t : Tenant)
    → get_tenant id db.tenants ≡ some (record t { status = suspended; suspended_at = some now })
    → get_tenant_suspension id db.tenants ≡ some (some now)
unfolding get_tenant_suspension
row_suspension id now db t h = ground arith

refused_write :
    (faults : Faults) (req : Request) (p : Principal) (db : Store) (t : Tenant) (now : ℕ)
    → get_tenant p.tenant_id db.tenants
      ≡ some (record t { status = suspended; suspended_at = some now })
    → req.is_public ≡ false
    → check_role req.path p.role ≡ ok tt
    → faults.tenant_status ≡ false
    → is_mutation req.method ≡ true
    → req.suspended_writable ≡ false
    → authorize faults req (some p) db ≡ err tenant_suspended
unfolding authorize check_status get_tenant_status
refused_write faults req p db t now row private role up writes strict = ground arith

gate_passes :
    (v : World) (tenant now : ℕ) (finished : Option ℕ) (db : Store)
    → get_tenant_suspension tenant db.tenants ≡ some (some now)
    → v.fault load_suspension ≡ false
    → evidence_suspension_gate v tenant finished db
      ≡ (if is_before finished now then ok tt else err Photos.tenant_suspended)
unfolding evidence_suspension_gate
gate_passes v tenant now finished db since up = ground arith

-- === photos of work that was not finished before the suspension ===

module _ (w : World) (q : Principal) (db : Store) (e at : ℕ) (row : WorkExecution)
    (suspension : get_tenant_suspension q.tenant_id db.tenants ≡ some (some at))
    (executed : get_execution e q.tenant_id db.executions ≡ some row)
    (late : is_before row.device_finished_at at ≡ false) where
  not_accepted : ¬ (check_execution w q e db ≡ ok tt)
  not_accepted h =
      let a = check_execution-Accepts w q e db h in
      let same : a.row ≡ row = cc (a.found, executed) in
      let since : a.suspended_at ≡ some at = cc (a.suspension, suspension) in
      let kept = subst (λ s. is_evidence s a.row.device_finished_at ≡ true) since a.evidence in
      absurd (
        cc
          (subst (λ (r : WorkExecution). is_before r.device_finished_at at ≡ true) same kept, late))

  late_presign :
      (input : PresignInput)
      → w.parse_uuid input.execution_id ≡ some e
      → (x : PhotoError) × (presign w q input db ≡ (db, err x))
  unfolding presign
  late_presign input named = elim (Result-cases (presign_checks w q input db)) [
    | inr (x, f) ↦ (x, rw (f, presign) refl)
    | inl ((photo, execution), f) ↦
        let (_, (of, checked)) = presign_checks_lem w q input db photo execution f in
        let same : execution ≡ e = cc (of, named) in
        absurd (not_accepted (subst (λ k. check_execution w q k db ≡ ok tt) same checked))
  ]

  late_confirm :
      (sent : ConfirmInput) (k : ℕ) (ph : Photo)
      → w.parse_uuid sent.id ≡ some k
      → get_photo k q.tenant_id db.photos ≡ some ph
      → ph.execution_id ≡ some e
      → (x : PhotoError) × (confirm w q sent db ≡ (db, err x))
  unfolding confirm
  late_confirm sent k ph named stored of = elim (Result-cases (confirm_checks w q sent db)) [
    | inr (x, f) ↦ (x, rw (f, confirm) refl)
    | inl (photo, f) ↦
        let c = confirm_checks-Confirmable w q sent db photo f in
        let key : photo ≡ k = cc (c.parsed, named) in
        let found = subst (λ n. get_photo n q.tenant_id db.photos ≡ some c.row) key c.found in
        let same : c.row ≡ ph = cc (found, stored) in
        let execution : c.execution ≡ e =
          cc (c.of_execution, subst (λ (r : Photo). r.execution_id ≡ some e) (sym same) of) in
        absurd (not_accepted (subst (λ n. check_execution w q n db ≡ ok tt) execution c.checked))
  ]

-- Once a suspension has succeeded: a principal of the tenant whose role fits the path is refused
-- every operation that writes and is not marked writable under suspension, where the lookup of the
-- tenant's status does not fail; the presign and the confirmation of a photo for an execution that
-- the device did not finish before the suspension are refused and change nothing, whatever
-- statements fail; and the gate that both of them run passes work exactly if it was finished before
-- the suspension, where the gate's statement does not fail.
pub suspension_gates :
    (fault : OpsStatement → Bool) (now : ℕ) (note : String) (db db' : Store) (t : Tenant)
    (faults : Faults) (req : Request) (p q : Principal) (w v : World) (input : PresignInput)
    (sent : ConfirmInput) (e k : ℕ) (row : WorkExecution) (ph : Photo) (finished : Option ℕ)
    → get_tenant p.tenant_id db.tenants ≡ some t
    → ops_suspend fault now p.tenant_id note db ≡ (db', ok tt)
    → req.is_public ≡ false
    → check_role req.path p.role ≡ ok tt
    → faults.tenant_status ≡ false
    → is_mutation req.method ≡ true
    → req.suspended_writable ≡ false
    → q.tenant_id ≡ p.tenant_id
    → get_execution e q.tenant_id db'.executions ≡ some row
    → is_before row.device_finished_at now ≡ false
    → w.parse_uuid input.execution_id ≡ some e
    → w.parse_uuid sent.id ≡ some k
    → get_photo k q.tenant_id db'.photos ≡ some ph
    → ph.execution_id ≡ some e
    → v.fault load_suspension ≡ false
    → (authorize faults req (some p) db' ≡ err tenant_suspended)
      × (((x : PhotoError) × (presign w q input db' ≡ (db', err x)))
          × (((x : PhotoError) × (confirm w q sent db' ≡ (db', err x)))
              × (evidence_suspension_gate v q.tenant_id finished db'
                  ≡ (if is_before finished now then ok tt else err Photos.tenant_suspended))))
suspension_gates fault now note db db' t faults req p q w v input sent e k row ph finished found s
      private role up writes strict same executed late named photo stored of up' =
    let line = suspended-row fault now p.tenant_id note db db' t found s in
    let since =
      subst (λ n. get_tenant_suspension n db'.tenants ≡ some (some now)) (sym same)
        (row_suspension p.tenant_id now db' t line) in
    (
      refused_write faults req p db' t now line private role up writes strict,
      (
        late_presign w q db' e now row since executed late input named,
        (
          late_confirm w q db' e now row since executed late sent k ph photo stored of,
          gate_passes v q.tenant_id now finished db' since up',
        ),
      ),
    )
