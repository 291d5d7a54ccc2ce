-- ===== src/Orders/Changes.antt =====
-- apps/api/internal/workorder/http.go: the listing of work orders and their reassignment.
use sdano.Base.{
  ℕ, not, Option, none, some, String, List, [], ◌∷◌, ◌==◌, str_eq, if◌then◌else◌, Result, ok, err,
  ◌>>=◌, ◌>>◌, reject_if, or_err,
}
use sdano.Store.{Store, WorkOrder, WorkOrderStatus, scheduled, in_progress, done, missed}
use sdano.Queries.Orders.{
  count_active_workers_in_tenant, ListWorkOrdersParams, list_work_orders, update_work_order,
}
use sdano.Session.{Principal}
use sdano.Orders.{
  World, OrderError, count_workers, list_rows, update_row, invalid_uuid, invalid_date,
  invalid_status, invalid_reference, work_order_not_found, run_statement, parse_optional,
}

pub record ListOrdersInput : Type 0 where
  pub date : String
  pub object_id : String
  pub assignee_id : String
  pub status : String

-- A query parameter that is empty is not sent.
abbrev pub given : String → Option String
given s = if str_eq s "" then none else some s

unfoldable pub parse_status : String → Option WorkOrderStatus
parse_status s =
    if str_eq s "scheduled"
    then some scheduled
    else if str_eq s "in_progress"
    then some in_progress
    else if str_eq s "done"
    then some done
    else if str_eq s "missed"
    then some missed
    else none

abbrev pub status_filter : Option String → Result OrderError (Option WorkOrderStatus)
status_filter none = ok none
status_filter (some s) = or_err (parse_status s) invalid_status >>= λ st. ok (some st)

abbrev pub list_params :
    ℕ → Option ℕ → Option ℕ → Option ℕ → Option WorkOrderStatus → ListWorkOrdersParams
list_params tenant_id date object_id assignee_id status = record {
  tenant_id = tenant_id;
  due_date = date;
  object_id = object_id;
  assignee_id = assignee_id;
  status = status;
}

unfoldable pub list_staff_work_orders :
    World → Principal → ListOrdersInput → Store → Result OrderError (List WorkOrder)
unfolding parse_optional parse_status list_work_orders
list_staff_work_orders w p input db = do
  date ← parse_optional w.parse_date invalid_date (given input.date)
  object_id ← parse_optional w.parse_uuid invalid_uuid (given input.object_id)
  assignee_id ← parse_optional w.parse_uuid invalid_uuid (given input.assignee_id)
  status ← status_filter (given input.status)
  run_statement w list_rows
  let params = list_params p.tenant_id date object_id assignee_id status
  ok (list_work_orders params db.work_orders)

-- === reassignment ===

pub record PatchOrderBody : Type 0 where
  pub assignee_id : Option String
  pub due_date : Option String

-- A missing body is an empty patch.
abbrev pub patch_body : Option PatchOrderBody → PatchOrderBody
patch_body (some b) = b
patch_body none = record { assignee_id = none; due_date = none }

-- The new assignee is an active worker of the tenant.
unfoldable pub patch_assignee :
    World → Principal → Option String → Store → Result OrderError (Option ℕ)
patch_assignee w p assignee_id db = elim assignee_id [
  | none ↦ ok none
  | some s ↦ do
    aid ← or_err (w.parse_uuid s) invalid_uuid
    run_statement w count_workers
    reject_if (not (count_active_workers_in_tenant p.tenant_id (aid ∷ []) db.users == 1))
        invalid_reference
    ok (some aid)
]

unfoldable pub patch_tx :
    World
    → Principal
    → String
    → Option PatchOrderBody
    → Store
    → Result OrderError (List WorkOrder × WorkOrder)
patch_tx w p id body db = do
  id ← or_err (w.parse_uuid id) invalid_uuid
  assignee_id ← patch_assignee w p (patch_body body).assignee_id db
  due_date ← parse_optional w.parse_date invalid_date (patch_body body).due_date
  run_statement w update_row
  or_err
      (update_work_order
        (record {
          assignee_id = assignee_id;
          due_date = due_date;
          id = id;
          tenant_id = p.tenant_id;
        })
        db.work_orders)
      work_order_not_found

abbrev pub reassigned :
    Store → Result OrderError (List WorkOrder × WorkOrder) → Store × Result OrderError WorkOrder
reassigned db (err e) = (db, err e)
reassigned db (ok (t, r)) = (record db { work_orders = t }, ok r)

unfoldable pub patch_staff_work_order :
    World → Principal → String → Option PatchOrderBody → Store → Store × Result OrderError WorkOrder
patch_staff_work_order w p id body db = reassigned db (patch_tx w p id body db)
