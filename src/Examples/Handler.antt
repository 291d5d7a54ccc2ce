-- ===== src/Examples/Handler.antt =====
-- A snapshot that comes over the endpoint (workorder/http.go).
use sdano.Base.{
  ℕ, Bool, true, false, ◌≡◌, refl, Option, none, some, String, [], ◌∷◌, str_eq, if◌then◌else◌, ok,
  err,
}
use sdano.Store.{Store, worker, suspended, WorkExecution, WorkExecutionItem}
use sdano.Queries.Auth.{get_tenant}
use sdano.Queries.Tenants.{get_tenant_suspension}
use sdano.Queries.Worker.{
  get_execution, get_work_order_for_worker, set_work_order_status, upsert_work_execution,
  list_checklist_items_by_versions, delete_execution_items_not_in, upsert_work_execution_item,
}
use sdano.Session.{Principal}
use sdano.Execution.{
  Statement, ExecutionInput, assigned_order, verified_owner, check_items, write_items, order_status,
  upsert_tx, upsert_execution,
}
use sdano.Execution.Handler.{
  ReadStatement, HandlerError, ExecutionUpsertInput, ExecutionView, parse_items, check_evidence,
  prepare, list_execution_items, list_execution_photos, load_execution_view, caller_of,
  put_execution,
}
use sdano.Execution.Handled.{IsSnapshot, Shows, late_snapshot_refused, put_execution-commits}
use sdano.Examples.Office.{office, agency, confirmed_photo, awaiting_photo}

abbrev parse : String → Option ℕ
parse s =
    if str_eq s "execution"
    then some 100
    else if str_eq s "order"
    then some 1
    else if str_eq s "wash"
    then some 5
    else if str_eq s "mark"
    then some 70
    else none

abbrev me : Principal
me = record { user_id = 7; tenant_id = 1; role = worker }

abbrev no_fault : Statement → Bool
no_fault s = false

abbrev reads : ReadStatement → Bool
reads s = false

abbrev request : ExecutionUpsertInput
request = record {
  id = "execution";
  work_order_id = "order";
  started_at = some 10;
  device_finished_at = some 15;
  note = none;
  items =
      record { id = "mark"; template_item_id = "wash"; checked = true; checked_at = some 14 } ∷ [];
}

abbrev stored : WorkExecution
stored = record {
  id = 100;
  tenant_id = 1;
  work_order_id = 1;
  worker_id = 7;
  started_at = some 10;
  finished_at = some 16;
  device_finished_at = some 15;
  note = none;
  created_at = 10;
}

abbrev mark : WorkExecutionItem
mark = record {
  id = 70;
  execution_id = 100;
  template_item_id = 5;
  checked = true;
  checked_at = some 14;
}

abbrev equipped : Store
equipped = record office {
  checklist_templates = record { id = 1; tenant_id = 1; name = "Stop" } ∷ [];
  checklist_versions = record { id = 1; template_id = 1; version = 1 } ∷ [];
  checklist_items =
      record { id = 5; version_id = 1; position = 1; title = "Wash"; requires_photo = false } ∷ [];
}

abbrev marked : Store
marked = record equipped { execution_items = mark ∷ [] }

abbrev view : ExecutionView
view = record {
  execution = stored;
  items = mark ∷ [];
  photos = confirmed_photo ∷ awaiting_photo ∷ [];
}

answered : put_execution parse reads no_fault 20 me request equipped ≡ (marked, ok view)
unfolding put_execution prepare parse_items check_evidence get_tenant_suspension get_tenant
    upsert_execution upsert_tx assigned_order verified_owner check_items write_items order_status
    upsert_work_execution get_execution get_work_order_for_worker list_checklist_items_by_versions
    delete_execution_items_not_in upsert_work_execution_item set_work_order_status
    load_execution_view list_execution_items list_execution_photos
answered = refl

put_execution-commits_example :
    (execution_id : ℕ) × ((in' : ExecutionInput) × ((parse "execution" ≡ some execution_id)
        × (IsSnapshot parse request in'
            × ((upsert_execution no_fault 20 (caller_of parse reads me execution_id) in' equipped
                  ≡ (marked, none))
                × Shows 1 execution_id marked view))))
put_execution-commits_example =
    put_execution-commits parse reads no_fault 20 me request equipped marked view answered

abbrev closed : Store
closed = record office {
  tenants = record agency { status = suspended; suspended_at = some 12 } ∷ [];
}

closed_at : get_tenant_suspension 1 closed.tenants ≡ some (some 12)
unfolding get_tenant_suspension get_tenant
closed_at = refl

late_snapshot_refused_example :
    (e : HandlerError) × (put_execution parse reads no_fault 20 me request closed ≡ (closed, err e))
late_snapshot_refused_example =
    late_snapshot_refused parse reads no_fault 20 me request closed 12 closed_at refl
