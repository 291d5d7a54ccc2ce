-- ===== src/Examples/Tenants.antt =====
-- A suspension and what follows it (platform/ops.go, platform/scheduler.go).
use sdano.Base.{Bool, true, false, ◌≡◌, refl, some, List, [], ◌∷◌, ok, err}
use sdano.Base.Int.{pos}
use sdano.Base.Bytes.{codes, has_prefix, bytes_eq}
use sdano.Store.{Store, suspended, manager}
use sdano.Queries.Auth.{get_tenant}
use sdano.Queries.Worker.{get_execution}
use sdano.Queries.Photos.{get_photo}
use sdano.Queries.Tenants.{get_tenant_suspension, ops_set_tenant_status, insert_ops_audit}
use sdano.Session.{Principal}
use sdano.Middleware.{Faults, Request, check_role, is_mutation, authorize, tenant_suspended}
use sdano.Photo.{PhotoError, evidence_suspension_gate, presign, confirm}
use sdano.Platform.{OpsStatement, assert_tenant_exists, set_status_tx, ops_suspend}
use sdano.Platform.Suspension.{
  suspend, activate, bill, OpsCall, changes, creates, calls, Agrees, suspension-Agrees,
}
use sdano.Platform.Gated.{suspension_gates}
use sdano.Examples.Office.{office, agency, finished_execution, awaiting_photo}
use sdano.Examples.Photos.{me, world, again, sent}
use sdano.Examples.Creations.{world as creation}

abbrev no_fault : OpsStatement → Bool
no_fault s = false

abbrev suspended_office : Store
suspended_office = record office {
  tenants = record agency { status = suspended; suspended_at = some 12 } ∷ [];
  audits =
      record { action = "tenant.suspend"; tenant_id = some 1; detail = ("note", "unpaid") ∷ [] }
      ∷ [];
}

suspends : ops_suspend no_fault 12 1 "unpaid" office ≡ (suspended_office, ok tt)
unfolding ops_suspend set_status_tx assert_tenant_exists get_tenant_suspension get_tenant
    ops_set_tenant_status insert_ops_audit
suspends = refl

abbrev month : List OpsCall
month =
    changes (suspend no_fault 12 1 "unpaid")
    ∷ creates creation "Acme 2" (pos 14)
    ∷ changes (bill no_fault (λ d. "date") 2 60 "")
    ∷ changes (activate no_fault 1)
    ∷ []

suspension-Agrees_example : Agrees (calls month office)
suspension-Agrees_example = suspension-Agrees month office (refl, tt)

abbrev healthy : Faults
healthy = record { device_session = false; tenant_status = false }

abbrev staff_write : Request
staff_write = record {
  path = codes "/api/v1/staff/objects";
  method = codes "POST";
  is_public = false;
  suspended_writable = false;
  authorization = [];
}

abbrev boss_principal : Principal
boss_principal = record { user_id = 6; tenant_id = 1; role = manager }

agency_found : get_tenant 1 office.tenants ≡ some agency
unfolding get_tenant
agency_found = refl

role_fits : check_role (codes "/api/v1/staff/objects") manager ≡ ok tt
unfolding check_role has_prefix
role_fits = refl

writes : is_mutation (codes "POST") ≡ true
unfolding is_mutation bytes_eq
writes = refl

executed : get_execution 100 1 suspended_office.executions ≡ some finished_execution
unfolding get_execution
executed = refl

photo_stored : get_photo 301 1 suspended_office.photos ≡ some awaiting_photo
unfolding get_photo
photo_stored = refl

suspension_gates_example :
    (authorize healthy staff_write (some boss_principal) suspended_office ≡ err tenant_suspended)
    × (((x : PhotoError) × (presign world me again suspended_office ≡ (suspended_office, err x)))
        × (((x : PhotoError) × (confirm world me sent suspended_office ≡ (suspended_office, err x)))
            × (evidence_suspension_gate world 1 (some 11) suspended_office ≡ ok tt)))
suspension_gates_example =
    suspension_gates no_fault 12 "unpaid" office suspended_office agency healthy staff_write
      boss_principal me world world again sent 100 301 finished_execution awaiting_photo (some 11)
      agency_found suspends refl role_fits refl writes refl refl executed refl refl refl
      photo_stored refl refl
