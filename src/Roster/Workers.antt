-- ===== src/Roster/Workers.antt =====
-- apps/api/internal/roster/http.go: the list of workers, their creation and their change by staff.
pub mod LockedOut
use sdano.Base.{
  ℕ, Bool, true, false, Option, none, some, String, List, map, if◌then◌else◌, Result, ok, err,
  ◌>>=◌, ◌>>◌, reject_if, or_err,
}
use sdano.Store.{Store, AppUser, worker}
use sdano.Queries.Staff.{
  insert_worker, UpdateWorkerParams, update_worker, ListWorkersRow, list_workers,
}
use sdano.Roster.{
  World, RosterStatement, RosterError, list_rows, insert_row, update_row, invalid_uuid,
  worker_not_found, failed_statement, create_invite,
}

pub record StaffWorkerView : Type 0 where
  pub id : ℕ
  pub display_name : String
  pub is_active : Bool
  pub created_at : ℕ
  pub invite_code : Option String
  pub invite_expires_at : Option ℕ

abbrev pub view_of : AppUser → Option String → Option ℕ → StaffWorkerView
view_of u code expires = record {
  id = u.id;
  display_name = u.display_name;
  is_active = u.is_active;
  created_at = u.created_at;
  invite_code = code;
  invite_expires_at = expires;
}

-- The invite is shown where both of its columns are there.
abbrev pub both : {A B : Type 0} → Option A → Option B → Option A × Option B
both (some a) (some b) = (some a, some b)
both (some a) none = (none, none)
both none b = (none, none)

abbrev pub to_listed_worker_view : ListWorkersRow → StaffWorkerView
to_listed_worker_view r = record {
  id = r.id;
  display_name = r.display_name;
  is_active = r.is_active;
  created_at = r.created_at;
  invite_code = (both r.pending_code r.pending_expires_at).0;
  invite_expires_at = (both r.pending_code r.pending_expires_at).1;
}

abbrev pub run_statement : World → RosterStatement → Result RosterError (Unit {0})
run_statement w s = reject_if (w.fault s) (failed_statement s)

unfoldable pub list_staff_workers : World → ℕ → Store → Result RosterError (List StaffWorkerView)
unfolding list_workers
list_staff_workers w tenant_id db = do
  run_statement w list_rows
  ok (map to_listed_worker_view (list_workers w.collate w.now tenant_id db))

-- The row that the database makes, with its defaults.
abbrev pub new_worker : World → ℕ → String → AppUser
new_worker w tenant_id display_name = record {
  id = w.new_user_id;
  tenant_id = tenant_id;
  role = worker;
  display_name = display_name;
  email = none;
  password_hash = none;
  is_active = true;
  created_at = w.now;
}

abbrev pub with_code :
    AppUser → Store × Result RosterError (String × ℕ) → Store × Result RosterError StaffWorkerView
with_code u (db, err e) = (db, err e)
with_code u (db, ok (code, expires)) = (db, ok (view_of u (some code) (some expires)))

abbrev pub inserted_worker : World → AppUser → Store → Result RosterError (List AppUser)
inserted_worker w u db =
    run_statement w insert_row >> or_err (insert_worker u db.users) (failed_statement insert_row)

-- The worker stays where no code can be issued.
unfoldable pub create_staff_worker :
    World → ℕ → String → Store → Store × Result RosterError StaffWorkerView
unfolding insert_worker
create_staff_worker w tenant_id display_name db =
    elim (inserted_worker w (new_worker w tenant_id display_name) db) [
      | err e ↦ (db, err e)
      | ok t ↦
          with_code (new_worker w tenant_id display_name)
            (create_invite w tenant_id w.new_user_id (record db { users = t }))
    ]

pub record PatchWorkerBody : Type 0 where
  pub display_name : Option String
  pub is_active : Option Bool

-- A missing body is an empty patch.
abbrev pub patch_body : Option PatchWorkerBody → PatchWorkerBody
patch_body (some b) = b
patch_body none = record { display_name = none; is_active = none }

abbrev pub patch_worker_params : ℕ → ℕ → PatchWorkerBody → UpdateWorkerParams
patch_worker_params id tenant_id body = record {
  display_name = body.display_name;
  is_active = body.is_active;
  id = id;
  tenant_id = tenant_id;
}

unfoldable pub patch_worker_call :
    World
    → ℕ
    → String
    → Option PatchWorkerBody
    → Store
    → Result RosterError (List AppUser × AppUser)
unfolding update_worker
patch_worker_call w tenant_id id body db = do
  id ← or_err (w.parse_uuid id) invalid_uuid
  run_statement w update_row
  or_err (update_worker (patch_worker_params id tenant_id (patch_body body)) db.users)
      worker_not_found

abbrev pub patched_worker :
    Store → Result RosterError (List AppUser × AppUser) → Store × Result RosterError StaffWorkerView
patched_worker db (err e) = (db, err e)
patched_worker db (ok (t, u)) = (record db { users = t }, ok (view_of u none none))

unfoldable pub patch_staff_worker :
    World → ℕ → String → Option PatchWorkerBody → Store → Store × Result RosterError StaffWorkerView
patch_staff_worker w tenant_id id body db =
    patched_worker db (patch_worker_call w tenant_id id body db)
