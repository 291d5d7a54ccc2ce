-- ===== src/Examples/Orders.antt =====
-- A batch of work orders and a reassignment.
use sdano.Base.{
  ℕ, ◌+◌, ◌≡◌, refl, Bool, false, Option, none, some, String, List, [], ◌∷◌, str_eq, ok,
  if◌then◌else◌,
}
use sdano.Base.Table.{select_one, matching, insert, update}
use sdano.Store.{Store, AppUser, manager, WorkOrder, scheduled}
use sdano.Queries.Worker.{get_work_order_for_worker, contains}
use sdano.Queries.Orders.{
  count_active_objects_in_tenant, count_versions_in_tenant, count_active_workers_in_tenant,
  insert_work_order, update_work_order,
}
use sdano.Session.{Principal}
use sdano.Execution.{Statement, Caller, ExecutionInput, upsert_execution, work_order_not_assigned}
use sdano.Orders.{World, OrderStatement, parse_optional}
use sdano.Orders.Creation.{
  OrderCreateBody, parse_order, parse_order_batch, validate_order_references, insert_orders,
  create_tx, create_staff_work_orders,
}
use sdano.Orders.Creation.Validated.{Keyed}
use sdano.Orders.Creation.Placed.{Outcome, orders_all_or_nothing}
use sdano.Orders.Changes.{PatchOrderBody, patch_assignee, patch_tx, patch_staff_work_order}
use sdano.Orders.Reassigned.{reassigned_refuses}
use sdano.Examples.Office.{office, bus_stop, cleaner, done_order}

abbrev pub parse : String → Option ℕ
parse s =
    if str_eq s "one"
    then some 1
    else if str_eq s "eight"
    then some 8
    else if str_eq s "execution"
    then some 100
    else none

abbrev zones : String → Option ℕ
zones s = some 20

abbrev link : String → Option (String × ℕ)
link key = some ("url", 99)

abbrev no_order_fault : OrderStatement → Bool
no_order_fault s = false

abbrev pub office_world : World
office_world = record {
  fault = no_order_fault;
  now = 30;
  clock = record { zone_today = zones; utc_today = 19 };
  new_id = λ k. 500 + k;
  collate = λ a b. false;
  parse_uuid = parse;
  parse_date = λ s. some 21;
  presign_get = link;
}

abbrev pub boss : Principal
boss = record { user_id = 6; tenant_id = 1; role = manager }

abbrev second_cleaner : AppUser
second_cleaner = record cleaner { id = 8 }

abbrev pub depot : Store
depot = record office {
  users = insert second_cleaner office.users;
  objects = bus_stop ∷ [];
  checklist_templates = record { id = 1; tenant_id = 1; name = "Stop" } ∷ [];
  checklist_versions = record { id = 1; template_id = 1; version = 1 } ∷ [];
}

keyed : Keyed depot
keyed = record {
  objects = (tt, tt);
  versions = (tt, tt);
  users = ((refl, (refl, tt)), ((refl, tt), (tt, tt)));
}

abbrev batch : Option (List OrderCreateBody)
batch = some (
    record {
      object_id = "one";
      version_id = "one";
      assignee_id = some "eight";
      due_date = "tomorrow";
    }
    ∷ [])

orders_all_or_nothing_example :
    Outcome office_world boss batch depot (create_staff_work_orders office_world boss batch depot)
orders_all_or_nothing_example = orders_all_or_nothing office_world boss batch depot keyed

abbrev batch_order : WorkOrder
batch_order = record {
  id = 500;
  tenant_id = 1;
  object_id = 1;
  version_id = 1;
  assignee_id = some 8;
  due_date = 21;
  status = scheduled;
  created_at = 30;
}

-- This batch is placed.
batch_test :
    create_staff_work_orders office_world boss batch depot
    ≡ (record depot { work_orders = done_order ∷ batch_order ∷ [] }, ok (500 ∷ []))
unfolding create_staff_work_orders create_tx parse_order_batch parse_order parse_optional contains
    validate_order_references count_active_objects_in_tenant count_versions_in_tenant
    count_active_workers_in_tenant insert_orders insert_work_order select_one matching
batch_test = refl

abbrev to_second : Option PatchOrderBody
to_second = some (record { assignee_id = some "eight"; due_date = none })

abbrev moved_order : WorkOrder
moved_order = record done_order { assignee_id = some 8 }

abbrev moved : Store
moved = record depot { work_orders = moved_order ∷ [] }

order_moved :
    patch_staff_work_order office_world boss "one" to_second depot ≡ (moved, ok moved_order)
unfolding patch_staff_work_order patch_tx patch_assignee parse_optional update_work_order
    count_active_workers_in_tenant select_one update matching
order_moved = refl

abbrev no_fault : Statement → Bool
no_fault s = false

abbrev caller : Caller
caller = record { tenant_id = 1; worker_id = 7; execution_id = 101 }

abbrev snapshot : ExecutionInput
snapshot = record {
  work_order_id = 1;
  started_at = some 22;
  device_finished_at = none;
  note = none;
  items = [];
}

reassigned_refuses_example :
    (get_work_order_for_worker 1 1 moved.work_orders ≡ some moved_order)
    × ((moved_order.assignee_id ≡ some 8)
        × (upsert_execution no_fault 31 caller snapshot moved
            ≡ (moved, some work_order_not_assigned)))
reassigned_refuses_example =
    reassigned_refuses office_world boss "one" "eight" to_second depot moved moved_order 8 no_fault
      31 caller snapshot order_moved refl refl refl refl refl refl refl
