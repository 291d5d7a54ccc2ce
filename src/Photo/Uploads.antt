-- ===== src/Photo/Uploads.antt =====
-- Whose photos the presign and the confirmation accept (photo/http.go).
use sdano.Base.{
  ℕ, true, ◌≡◌, Option, some, List, [], ◌∷◌, is_some, ok, Result-cases, Option-cases, Bool-cases,
  inl, inr, arith,
}
use sdano.Store.{Store, Photo, WorkExecution}
use sdano.Queries.Worker.{get_execution}
use sdano.Queries.Tenants.{get_tenant_suspension}
use sdano.Queries.Photos.{get_photo, confirm_photo, ConfirmPhotoParams}
use sdano.Session.{Principal}
use sdano.Photo.{
  World, is_evidence, evidence_suspension_gate, check_execution, ConfirmInput, confirm,
  confirm_checks, confirm_reload, confirm_params, confirm_write, stamp_photo,
}

-- The execution is the caller's, in the caller's tenant, and its evidence predates a suspension.
pub record Accepts (p : Principal) (execution : ℕ) (db : Store) : Type 0 where
  pub row : WorkExecution
  pub found : get_execution execution p.tenant_id db.executions ≡ some row
  pub own : row.worker_id ≡ p.user_id
  pub suspended_at : Option ℕ
  pub suspension : get_tenant_suspension p.tenant_id db.tenants ≡ some suspended_at
  pub evidence : is_evidence suspended_at row.device_finished_at ≡ true

gate-evidence :
    (w : World) (tenant : ℕ) (finished : Option ℕ) (db : Store)
    → evidence_suspension_gate w tenant finished db ≡ ok tt
    → (s : Option ℕ) × ((get_tenant_suspension tenant db.tenants ≡ some s)
        × (is_evidence s finished ≡ true))
unfolding evidence_suspension_gate
gate-evidence w tenant finished db h =
    elim (Option-cases (get_tenant_suspension tenant db.tenants)) [
      | inl f ↦ absurd (ground arith)
      | inr (s, f) ↦ (s, (f, ground arith))
    ]

check_execution-gate :
    (w : World) (p : Principal) (execution : ℕ) (db : Store)
    → check_execution w p execution db ≡ ok tt
    → (row : WorkExecution) × ((get_execution execution p.tenant_id db.executions ≡ some row)
        × ((row.worker_id ≡ p.user_id)
            × (evidence_suspension_gate w p.tenant_id row.device_finished_at db ≡ ok tt)))
unfolding check_execution
check_execution-gate w p execution db h =
    elim (Option-cases (get_execution execution p.tenant_id db.executions)) [
      | inl f ↦ absurd (ground arith)
      | inr (row, f) ↦ (row, (f, (ground arith, ground arith)))
    ]

pub check_execution-Accepts :
    (w : World) (p : Principal) (execution : ℕ) (db : Store)
    → check_execution w p execution db ≡ ok tt
    → Accepts p execution db
check_execution-Accepts w p execution db h =
    let (row, (found, (own, gate))) = check_execution-gate w p execution db h in
    let (s, (suspension, evidence)) = gate-evidence w p.tenant_id row.device_finished_at db gate in
    record {
      row = row;
      found = found;
      own = own;
      suspended_at = s;
      suspension = suspension;
      evidence = evidence;
    }

-- The photo that a confirmation names, with an execution that is accepted and a stored object.
pub record Confirmable (w : World) (p : Principal) (input : ConfirmInput) (photo : ℕ) (db : Store)
    : Type 0 where
  pub parsed : w.parse_uuid input.id ≡ some photo
  pub row : Photo
  pub found : get_photo photo p.tenant_id db.photos ≡ some row
  pub execution : ℕ
  pub of_execution : row.execution_id ≡ some execution
  pub checked : check_execution w p execution db ≡ ok tt
  pub stored : w.exists row.s3_key ≡ some true

pub confirm_checks-Confirmable :
    (w : World) (p : Principal) (input : ConfirmInput) (db : Store) (photo : ℕ)
    → confirm_checks w p input db ≡ ok photo
    → Confirmable w p input photo db
unfolding confirm_checks
confirm_checks-Confirmable w p input db photo h = elim (Option-cases (w.parse_uuid input.id)) [
  | inl f ↦ absurd (ground arith)
  | inr (photo', f) ↦ elim (Option-cases (get_photo photo' p.tenant_id db.photos)) [
    | inl g ↦ absurd (ground arith)
    | inr (ph, g) ↦ elim (Option-cases ph.execution_id) [
      | inl k ↦ absurd (ground arith)
      | inr (execution, k) ↦ elim (Result-cases (check_execution w p execution db)) [
        | inr (e, c) ↦ absurd (ground arith)
        | inl (u, c) ↦ record {
          parsed = ground arith;
          row = ph;
          found = ground arith;
          execution = execution;
          of_execution = k;
          checked = c;
          stored = ground arith;
        }
      ]
    ]
  ]
]

confirm_photo-stamps :
    (now : ℕ) (a : ConfirmPhotoParams) (t : List Photo) (ph : Photo)
    → get_photo a.id a.tenant_id (confirm_photo now a t) ≡ some ph
    → is_some ph.uploaded_at ≡ true
unfolding confirm_photo get_photo
confirm_photo-stamps now a [] ph h = absurd (cc)
confirm_photo-stamps now a (r ∷ t) ph h = ground (arith, confirm_photo-stamps now a t ph)

confirm_reload-photo :
    (w : World) (p : Principal) (photo : ℕ) (db : Store) (ph : Photo)
    → confirm_reload w p photo db ≡ ok ph
    → get_photo photo p.tenant_id db.photos ≡ some ph
unfolding confirm_reload
confirm_reload-photo w p photo db ph h =
    elim (Option-cases (get_photo photo p.tenant_id db.photos)) [
      | inl f ↦ absurd (ground arith)
      | inr (x, f) ↦ ground arith
    ]

confirm_write-stamps :
    (w : World) (p : Principal) (input : ConfirmInput) (photo : ℕ) (db db' : Store) (ph : Photo)
    → confirm_write w p input photo db ≡ (db', ok ph)
    → (get_photo photo p.tenant_id db'.photos ≡ some ph) × (is_some ph.uploaded_at ≡ true)
unfolding confirm_write
confirm_write-stamps w p input photo db db' ph h = elim (Bool-cases (w.fault stamp_photo)) [
  | inl fails ↦ absurd (ground arith)
  | inr runs ↦
      let a : ConfirmPhotoParams = confirm_params p input photo in
      let after = confirm_photo w.now a db.photos in
      let reloaded : confirm_reload w p photo (record db { photos = after }) ≡ ok ph =
        ground arith in
      let got : get_photo photo p.tenant_id after ≡ some ph =
        confirm_reload-photo w p photo (record db { photos = after }) ph reloaded in
      let written : db'.photos ≡ after = ground arith in
      (rw written got, confirm_photo-stamps w.now a db.photos ph got)
]

-- A confirmation that succeeds names a photo of the caller's own execution, whose object the store
-- has and whose evidence, where the tenant is suspended, predates the suspension; afterwards the
-- photo that it answers with is stored and carries a confirmation time.
pub confirm_sound :
    (w : World) (p : Principal) (input : ConfirmInput) (db db' : Store) (ph : Photo)
    → confirm w p input db ≡ (db', ok ph)
    → (photo : ℕ) × ((c : Confirmable w p input photo db) × (Accepts p c.execution db
          × ((get_photo photo p.tenant_id db'.photos ≡ some ph) × (is_some ph.uploaded_at ≡ true))))
unfolding confirm
confirm_sound w p input db db' ph h = elim (Result-cases (confirm_checks w p input db)) [
  | inr (e, f) ↦ absurd (ground arith)
  | inl (photo, f) ↦
      let c = confirm_checks-Confirmable w p input db photo f in
      (
        photo,
        (
          c,
          (
            check_execution-Accepts w p c.execution db c.checked,
            confirm_write-stamps w p input photo db db' ph (ground arith),
          ),
        ),
      )
]
