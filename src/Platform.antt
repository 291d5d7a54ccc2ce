-- ===== src/Platform.antt =====
-- apps/api/internal/platform/ops.go and scheduler.go: the operator's changes of a tenant, each one
-- transaction with its audit row, and the hourly jobs. `fault` says which statements the database
-- refuses; `zone_today` is the date in a zone of the time-zone database, which may not know the zone.
pub mod Suspension
pub mod Gated
pub mod Overdue
pub mod Orphans
pub mod Creation
use sdano.Base.{
  ℕ, ◌-◌, ◌*◌, Bool, true, false, Option, none, some, String, List, [], ◌∷◌, ◌==◌, str_eq,
  if◌then◌else◌, Result, ok, err, ◌>>=◌, ◌>>◌, reject_if, or_err,
}
use sdano.Store.{Store, Tenant, TenantStatus, active, suspended, OpsAudit}
use sdano.Queries.Tenants.{
  get_tenant_suspension, ops_set_tenant_status, ops_set_billing, insert_ops_audit,
  mark_tenant_overdue_orders_missed,
}
use sdano.Queries.Photos.{ListOrphanPhotosRow, list_orphan_photos, delete_photo_row}
use sdano.Session.{hour}

pub data OpsStatement : Type 0 where
  begin_tx look_up set_status set_billing insert_audit commit_tx : OpsStatement

pub data OpsError : Type 0 where
  tenant_not_found : OpsError
  failed_statement : OpsStatement → OpsError

abbrev pub run_statement : (OpsStatement → Bool) → OpsStatement → Result OpsError (Unit {0})
run_statement fault s = reject_if (fault s) (failed_statement s)

-- The transaction's database where it commits, and the one before it where it fails.
abbrev pub commit : Store → Result OpsError Store → Store × Result OpsError (Unit {0})
commit db (ok db') = (db', ok tt)
commit db (err e) = (db, err e)

unfoldable pub assert_tenant_exists : (OpsStatement → Bool) → ℕ → Store → Result OpsError (Unit {0})
assert_tenant_exists fault tenant_id db = do
  run_statement fault look_up
  susp ← or_err (get_tenant_suspension tenant_id db.tenants) tenant_not_found
  ok tt

unfoldable pub set_status_tx :
    (OpsStatement → Bool)
    → ℕ
    → TenantStatus
    → Option ℕ
    → String
    → List (String × String)
    → Store
    → Result OpsError Store
set_status_tx fault tenant_id status suspended_at action detail db = do
  run_statement fault begin_tx
  assert_tenant_exists fault tenant_id db
  run_statement fault set_status
  run_statement fault insert_audit
  run_statement fault commit_tx
  ok (record db {
    tenants = ops_set_tenant_status tenant_id status suspended_at db.tenants;
    audits =
        insert_ops_audit (record { action = action; tenant_id = some tenant_id; detail = detail })
          db.audits;
  })

unfoldable pub ops_suspend :
    (OpsStatement → Bool) → ℕ → ℕ → String → Store → Store × Result OpsError (Unit {0})
ops_suspend fault now tenant_id note db =
    commit db
      (set_status_tx fault tenant_id suspended (some now) "tenant.suspend" (("note", note) ∷ []) db)

unfoldable pub ops_activate : (OpsStatement → Bool) → ℕ → Store → Store × Result OpsError (Unit {0})
ops_activate fault tenant_id db =
    commit db (set_status_tx fault tenant_id active none "tenant.activate" [] db)

abbrev pub note_pointer : String → Option String
note_pointer plan_note = if str_eq plan_note "" then none else some plan_note

-- `format_date` is `Time.Format("2006-01-02")`.
abbrev pub billing_detail : (ℕ → String) → ℕ → String → List (String × String)
billing_detail format_date billed_until plan_note =
    ("billed_until", format_date billed_until)
    ∷ (if str_eq plan_note "" then [] else ("plan_note", plan_note) ∷ [])

unfoldable pub set_billing_tx :
    (OpsStatement → Bool) → (ℕ → String) → ℕ → ℕ → String → Store → Result OpsError Store
set_billing_tx fault format_date tenant_id billed_until plan_note db = do
  run_statement fault begin_tx
  assert_tenant_exists fault tenant_id db
  run_statement fault set_billing
  run_statement fault insert_audit
  run_statement fault commit_tx
  ok (record db {
    tenants = ops_set_billing tenant_id billed_until (note_pointer plan_note) db.tenants;
    audits =
        insert_ops_audit
          (record {
            action = "tenant.set-billing";
            tenant_id = some tenant_id;
            detail = billing_detail format_date billed_until plan_note;
          })
          db.audits;
  })

unfoldable pub ops_set_billing_call :
    (OpsStatement → Bool)
    → (ℕ → String)
    → ℕ
    → ℕ
    → String
    → Store
    → Store × Result OpsError (Unit {0})
ops_set_billing_call fault format_date tenant_id billed_until plan_note db =
    commit db (set_billing_tx fault format_date tenant_id billed_until plan_note db)

-- === the hourly jobs ===

abbrev pub orphan_photo_age : ℕ
orphan_photo_age = 14 * (24 * hour)

-- What a run of the jobs meets: the clock, the object store (`none` where the check fails), the
-- tenants and the photos whose statements fail.
pub record Run : Type 0 where
  pub now : ℕ
  pub exists : String → Option Bool
  pub zone_today : String → Option ℕ
  pub utc_today : ℕ
  pub list_tenants_fails : Bool
  pub list_photos_fails : Bool
  pub mark_fails : ℕ → Bool
  pub delete_fails : ℕ → Bool

-- The row of a photo whose object the store knows to be missing is deleted.
unfoldable pub gc_photo : Run → ListOrphanPhotosRow → Store → Store
gc_photo w row db = elim (w.exists row.s3_key) [
  | none ↦ db
  | some exists ↦
      if exists
      then db
      else if w.delete_fails row.id
      then db
      else record db { photos = delete_photo_row row.id db.photos }
]

unfoldable pub gc_photos : Run → List ListOrphanPhotosRow → Store → Store
gc_photos w [] db = db
gc_photos w (row ∷ rows) db = gc_photos w rows (gc_photo w row db)

unfoldable pub gc_orphan_photos : Run → Store → Store
gc_orphan_photos w db =
    if w.list_photos_fails
    then db
    else gc_photos w (list_orphan_photos (w.now - orphan_photo_age) db.photos) db

-- The tenant's date; UTC's where its zone is unknown.
abbrev pub local_today : Run → String → ℕ
local_today w timezone = elim (w.zone_today timezone) [ none ↦ w.utc_today | some today ↦ today ]

unfoldable pub mark_tenant : Run → Tenant → Store → Store
mark_tenant w t db = if w.mark_fails t.id then db else record db {
  work_orders = mark_tenant_overdue_orders_missed t.id (local_today w t.timezone) db.work_orders;
}

unfoldable pub mark_tenants : Run → List Tenant → Store → Store
mark_tenants w [] db = db
mark_tenants w (t ∷ ts) db = mark_tenants w ts (mark_tenant w t db)

unfoldable pub mark_overdue_missed : Run → Store → Store
mark_overdue_missed w db = if w.list_tenants_fails then db else mark_tenants w db.tenants db

unfoldable pub run_once : Run → Store → Store
run_once w db = gc_orphan_photos w (mark_overdue_missed w db)
