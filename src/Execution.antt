-- ===== src/Execution.antt =====
-- apps/api/internal/workorder/execution.go: the worker's full-state snapshot of an execution.
-- The body of the transaction is `upsert_tx`; `UpsertExecution` commits its result or rolls back.
-- `fault` says which statements the database refuses, so that every `if err != nil` is a branch.
pub mod Committed
pub mod Items
pub mod Replay
pub mod Converge
pub mod Completion
pub mod Snapshot
pub mod Isolation
pub mod Handler
pub mod Handled
use sdano.Base.{
  ℕ, Bool, not, Option, none, some, String, List, [], ◌∷◌, map, ◌==◌, opt_eq, if◌then◌else◌,
  is_some, Result, ok, err, ◌>>=◌, ◌>>◌, reject_if, or_err,
}
use sdano.Store.{
  Store, WorkOrder, WorkOrderStatus, in_progress, done, WorkExecution, WorkExecutionItem,
  ChecklistTemplateItem,
}
use sdano.Queries.Worker.{
  contains, get_work_order_for_worker, set_work_order_status, get_execution,
  UpsertWorkExecutionParams, upsert_work_execution, list_checklist_items_by_versions,
  delete_execution_items_not_in, UpsertWorkExecutionItemParams, upsert_work_execution_item,
}

-- The statements of the transaction, in order; an item's upsert is named by the item.
pub data Statement : Type 0 where
  begin_tx get_order upsert_row verify_owner list_checklist prune_items : Statement
  upsert_item : ℕ → Statement
  set_status commit_tx : Statement

pub data UpsertError : Type 0 where
  work_order_not_assigned execution_id_conflict invalid_checklist_item : UpsertError
  execution_item_conflict : UpsertError
  failed_statement : Statement → UpsertError

pub record ExecutionItemInput : Type 0 where
  pub id : ℕ
  pub template_item_id : ℕ
  pub checked : Bool
  pub checked_at : Option ℕ

pub record ExecutionInput : Type 0 where
  pub work_order_id : ℕ
  pub started_at : Option ℕ
  pub device_finished_at : Option ℕ
  pub note : Option String
  pub items : List ExecutionItemInput

-- Who writes, and under which id.
pub record Caller : Type 0 where
  pub tenant_id : ℕ
  pub worker_id : ℕ
  pub execution_id : ℕ

abbrev pub execution_params : Caller → ExecutionInput → UpsertWorkExecutionParams
execution_params c in' = record {
  id = c.execution_id;
  tenant_id = c.tenant_id;
  work_order_id = in'.work_order_id;
  worker_id = c.worker_id;
  started_at = in'.started_at;
  device_finished_at = in'.device_finished_at;
  note = in'.note;
}

abbrev pub item_params : ℕ → ExecutionItemInput → UpsertWorkExecutionItemParams
item_params execution_id it = record {
  id = it.id;
  execution_id = execution_id;
  template_item_id = it.template_item_id;
  checked = it.checked;
  checked_at = it.checked_at;
}

abbrev pub item_ids : List ExecutionItemInput → List ℕ
item_ids = map (λ it. it.id)

abbrev pub checklist_ids : List ChecklistTemplateItem → List ℕ
checklist_ids = map (λ ci. ci.id)

-- `for _, it := range in.Items { if !allowed[it.TemplateItemID] … }`.
unfoldable pub check_items : List ℕ → List ExecutionItemInput → Result UpsertError (Unit {0})
unfolding contains
check_items allowed [] = ok tt
check_items allowed (it ∷ items) =
    if not (contains allowed it.template_item_id)
    then err invalid_checklist_item
    else check_items allowed items

-- One round of the loop that writes the items.
unfoldable pub write_item :
    (Statement → Bool)
    → ℕ
    → ExecutionItemInput
    → List WorkExecutionItem
    → Result UpsertError (List WorkExecutionItem)
unfolding upsert_work_execution_item
write_item fault execution_id it t = do
  reject_if (fault (upsert_item it.id)) (failed_statement (upsert_item it.id))
  let (t', n) = upsert_work_execution_item (item_params execution_id it) t
  reject_if (n == 0) execution_item_conflict
  ok t'

unfoldable pub write_items :
    (Statement → Bool)
    → ℕ
    → List ExecutionItemInput
    → List WorkExecutionItem
    → Result UpsertError (List WorkExecutionItem)
unfolding write_item
write_items fault execution_id [] t = ok t
write_items fault execution_id (it ∷ items) t = do
  t' ← write_item fault execution_id it t
  write_items fault execution_id items t'

-- The status that the stored completion gives.
unfoldable pub order_status : WorkExecution → WorkOrderStatus
order_status owner = if is_some owner.device_finished_at then done else in_progress

-- The order that the worker may execute.
unfoldable pub assigned_order :
    (Statement → Bool) → Caller → ℕ → Store → Result UpsertError WorkOrder
unfolding get_work_order_for_worker
assigned_order fault c work_order_id db = do
  reject_if (fault get_order) (failed_statement get_order)
  wo ←
      or_err (get_work_order_for_worker work_order_id c.tenant_id db.work_orders)
        work_order_not_assigned
  reject_if (not (opt_eq wo.assignee_id c.worker_id)) work_order_not_assigned
  ok wo

-- The row as it stands after the write, if the caller owns it and it is bound to the order.
unfoldable pub verified_owner :
    (Statement → Bool) → Caller → ℕ → List WorkExecution → Result UpsertError WorkExecution
unfolding get_execution
verified_owner fault c work_order_id executions = do
  reject_if (fault verify_owner) (failed_statement verify_owner)
  owner ← or_err (get_execution c.execution_id c.tenant_id executions) execution_id_conflict
  reject_if (not (owner.worker_id == c.worker_id)) execution_id_conflict
  reject_if (not (owner.work_order_id == work_order_id)) execution_id_conflict
  ok owner

unfoldable pub upsert_tx :
    (Statement → Bool) → ℕ → Caller → ExecutionInput → Store → Result UpsertError Store
upsert_tx fault now c in' db = do
  reject_if (fault begin_tx) (failed_statement begin_tx)
  wo ← assigned_order fault c in'.work_order_id db
  reject_if (fault upsert_row) (failed_statement upsert_row)
  let executions = upsert_work_execution now (execution_params c in') db.executions
  owner ← verified_owner fault c in'.work_order_id executions
  reject_if (fault list_checklist) (failed_statement list_checklist)
  let valid = list_checklist_items_by_versions (wo.version_id ∷ []) c.tenant_id db
  check_items (checklist_ids valid) in'.items
  reject_if (fault prune_items) (failed_statement prune_items)
  let kept = delete_execution_items_not_in c.execution_id (item_ids in'.items) db.execution_items
  items ← write_items fault c.execution_id in'.items kept
  reject_if (fault set_status) (failed_statement set_status)
  let orders =
      set_work_order_status in'.work_order_id c.tenant_id (order_status owner) db.work_orders
  reject_if (fault commit_tx) (failed_statement commit_tx)
  ok (record db { executions = executions; execution_items = items; work_orders = orders })

-- The database after the call, and the error returned.
unfoldable pub upsert_execution :
    (Statement → Bool) → ℕ → Caller → ExecutionInput → Store → Store × Option UpsertError
upsert_execution fault now c in' db = elim (upsert_tx fault now c in' db) [
  | ok db' ↦ (db', none)
  | err e ↦ (db, some e)
]
