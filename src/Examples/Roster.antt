-- ===== src/Examples/Roster.antt =====
-- A fresh invite for a worker (roster/invite.go, roster/http.go).
use sdano.Base.{
  ℕ, ◌+◌, ◌<◌, true, false, ◌≡◌, refl, Option, none, some, [], ◌∷◌, str_eq, if◌then◌else◌, ok,
  arith,
}
use sdano.Base.Table.{select_one}
use sdano.Store.{Store}
use sdano.Queries.Auth.{is_active_user, get_active_invite}
use sdano.Queries.Staff.{void_worker_invites, insert_invite}
use sdano.Roster.{World, invite_ttl, issue_code, create_invite}
use sdano.Roster.Invites.{issued_code_admits}
use sdano.Base.Sorting.{sort_by}
use sdano.Base.Table.{update, select}
use sdano.Queries.Auth.{get_device_session}
use sdano.Queries.Staff.{update_worker, list_workers, pending_invite}
use sdano.Queries.Orders.{count_active_workers_in_tenant}
use sdano.Roster.Workers.{
  StaffWorkerView, PatchWorkerBody, list_staff_workers, patch_worker_call, patch_staff_worker,
}
use sdano.Roster.Workers.LockedOut.{opens_for, admits, deactivated_locked_out}
use sdano.Examples.Office.{office, boss, cleaner}

abbrev pub world : World
world = record {
  fault = λ s. false;
  now = 20;
  parse_uuid = λ s. if str_eq s "cleaner" then some 7 else none;
  draw = λ left. some "654321";
  new_id = λ left. 41;
  new_user_id = 9;
  collate = λ a b. false;
}

abbrev expires : ℕ
expires = 20 + invite_ttl

abbrev invited : Store
invited = record office {
  invites =
      record {
        id = 40;
        tenant_id = 1;
        user_id = 7;
        code = "123456";
        expires_at = 1_000;
        used_at = some 20;
      }
      ∷ record {
        id = 41;
        tenant_id = 1;
        user_id = 7;
        code = "654321";
        expires_at = expires;
        used_at = none;
      }
      ∷ [];
}

issues : create_invite world 1 7 office ≡ (invited, ok ("654321", expires))
unfolding create_invite void_worker_invites issue_code insert_invite
issues = refl

early : 30 < expires
early = omega arith

cleaner_found : select_one (is_active_user 7) office.users ≡ some cleaner
unfolding select_one
cleaner_found = refl

issued_code_admits_example :
    (id : ℕ) × (get_active_invite 30 "654321" invited
      ≡ some (record { id = id; tenant_id = 1; user_id = 7; display_name = "Cleaner" }))
issued_code_admits_example =
    issued_code_admits world 1 7 office invited "654321" expires 30 cleaner issues early
      cleaner_found

abbrev switched_off : Option PatchWorkerBody
switched_off = some (record { display_name = none; is_active = some false })

abbrev without_cleaner : Store
without_cleaner = record office { users = boss ∷ record cleaner { is_active = false } ∷ [] }

abbrev cleaner_view : StaffWorkerView
cleaner_view = record {
  id = 7;
  display_name = "Cleaner";
  is_active = false;
  created_at = 1;
  invite_code = none;
  invite_expires_at = none;
}

switches_off :
    patch_staff_worker world 1 "cleaner" switched_off office ≡ (without_cleaner, ok cleaner_view)
unfolding patch_staff_worker patch_worker_call update_worker select_one update
switches_off = refl

deactivated_locked_out_example :
    (false ≡ false)
    × ((opens_for 7 (get_device_session "device" without_cleaner) ≡ false)
        × ((admits 7 (get_active_invite 30 "123456" without_cleaner) ≡ false)
            × (count_active_workers_in_tenant 1 (7 ∷ []) without_cleaner.users ≡ 0)))
deactivated_locked_out_example =
    deactivated_locked_out world 1 "cleaner" switched_off office without_cleaner cleaner_view
      "device" "123456" 30 ((refl, tt), (tt, tt)) refl switches_off

-- The roster shows the open code of the worker.
roster_test :
    list_staff_workers world 1 office
    ≡ ok (
        record cleaner_view {
          is_active = true;
          invite_code = some "123456";
          invite_expires_at = some 1_000;
        }
        ∷ [])
unfolding list_staff_workers list_workers pending_invite sort_by select
roster_test = refl
