-- ===== src/Queries/Worker.antt =====
-- apps/api/internal/db/worker.sql.go: the statements of the worker endpoints.
use sdano.Base.{
  ℕ, Bool, ◌&&◌, ◌||◌, not, false, Option, none, some, String, List, [], ◌∷◌, ◌==◌, if◌then◌else◌,
  is_some, coalesce,
}
use sdano.Base.Table.{select_one, select, update, delete, insert, matching}
use sdano.Store.{
  Store, WorkOrder, WorkOrderStatus, WorkExecution, WorkExecutionItem, ChecklistTemplate,
  ChecklistTemplateItem,
}

-- `x = ANY(xs)`.
unfoldable pub contains : List ℕ → ℕ → Bool
contains [] x = false
contains (y ∷ ys) x = y == x || contains ys x

-- === orders and executions ===

-- The `FOR UPDATE` lock serialises the transactions on one order.
unfoldable pub get_work_order_for_worker : ℕ → ℕ → List WorkOrder → Option WorkOrder
unfolding select_one
get_work_order_for_worker id tenant_id = select_one (λ r. r.id == id && r.tenant_id == tenant_id)

unfoldable pub set_work_order_status : ℕ → ℕ → WorkOrderStatus → List WorkOrder → List WorkOrder
unfolding update
set_work_order_status id tenant_id status =
    update (λ r. r.id == id && r.tenant_id == tenant_id) (λ r. record r { status = status })

unfoldable pub get_execution : ℕ → ℕ → List WorkExecution → Option WorkExecution
unfolding select_one
get_execution id tenant_id = select_one (λ r. r.id == id && r.tenant_id == tenant_id)

pub record UpsertWorkExecutionParams : Type 0 where
  pub id : ℕ
  pub tenant_id : ℕ
  pub work_order_id : ℕ
  pub worker_id : ℕ
  pub started_at : Option ℕ
  pub device_finished_at : Option ℕ
  pub note : Option String

-- `CASE WHEN device_finished_at IS NOT NULL THEN now() ELSE NULL END`.
abbrev pub finish_stamp : ℕ → Option ℕ → Option ℕ
finish_stamp now none = none
finish_stamp now (some t) = some now

-- The row that `VALUES` proposes (`EXCLUDED`).
abbrev pub proposed_execution : ℕ → UpsertWorkExecutionParams → WorkExecution
proposed_execution now a = record {
  id = a.id;
  tenant_id = a.tenant_id;
  work_order_id = a.work_order_id;
  worker_id = a.worker_id;
  started_at = a.started_at;
  finished_at = finish_stamp now a.device_finished_at;
  device_finished_at = a.device_finished_at;
  note = a.note;
  created_at = now;
}

-- `DO UPDATE SET`.
abbrev pub merge_execution : ℕ → UpsertWorkExecutionParams → WorkExecution → WorkExecution
merge_execution now a old = record old {
  started_at = a.started_at;
  device_finished_at = coalesce old.device_finished_at a.device_finished_at;
  finished_at = coalesce old.finished_at (finish_stamp now a.device_finished_at);
  note = a.note;
}

-- `WHERE` of the `DO UPDATE`, on the row whose id conflicts.
abbrev pub owns_execution : UpsertWorkExecutionParams → WorkExecution → Bool
owns_execution a r = r.id == a.id && (r.tenant_id == a.tenant_id && r.worker_id == a.worker_id)

unfoldable pub upsert_work_execution :
    ℕ → UpsertWorkExecutionParams → List WorkExecution → List WorkExecution
unfolding select_one update
upsert_work_execution now a t =
    if is_some (select_one (λ r. r.id == a.id) t)
    then update (owns_execution a) (merge_execution now a) t
    else insert (proposed_execution now a) t

-- === checklist items ===

-- `JOIN checklist_template t ON t.id = v.template_id … AND t.tenant_id = $2`.
unfoldable pub template_of_tenant : ℕ → List ChecklistTemplate → ℕ → Bool
unfolding select_one
template_of_tenant tenant_id t template_id =
    is_some (select_one (λ r. r.id == template_id && r.tenant_id == tenant_id) t)

-- `JOIN checklist_template_version v ON v.id = i.version_id`.
unfoldable pub version_of_tenant : ℕ → Store → ℕ → Bool
unfolding select_one template_of_tenant
version_of_tenant tenant_id db version_id = is_some (
    select_one
      (λ v. v.id == version_id && template_of_tenant tenant_id db.checklist_templates v.template_id)
      db.checklist_versions)

-- The inner joins follow primary keys. The order of the rows is left out: no reader of the model
-- depends on it.
unfoldable pub list_checklist_items_by_versions : List ℕ → ℕ → Store → List ChecklistTemplateItem
unfolding select contains version_of_tenant
list_checklist_items_by_versions version_ids tenant_id db =
    select (λ i. contains version_ids i.version_id && version_of_tenant tenant_id db i.version_id)
      db.checklist_items

-- === execution items ===

unfoldable pub delete_execution_items_not_in :
    ℕ → List ℕ → List WorkExecutionItem → List WorkExecutionItem
unfolding delete contains
delete_execution_items_not_in execution_id keep_ids =
    delete (λ r. r.execution_id == execution_id && not (contains keep_ids r.id))

pub record UpsertWorkExecutionItemParams : Type 0 where
  pub id : ℕ
  pub execution_id : ℕ
  pub template_item_id : ℕ
  pub checked : Bool
  pub checked_at : Option ℕ

abbrev pub proposed_item : UpsertWorkExecutionItemParams → WorkExecutionItem
proposed_item a = record {
  id = a.id;
  execution_id = a.execution_id;
  template_item_id = a.template_item_id;
  checked = a.checked;
  checked_at = a.checked_at;
}

abbrev pub merge_item : UpsertWorkExecutionItemParams → WorkExecutionItem → WorkExecutionItem
merge_item a old = record old { checked = a.checked; checked_at = a.checked_at }

abbrev pub owns_item : UpsertWorkExecutionItemParams → WorkExecutionItem → Bool
owns_item a r = r.id == a.id && r.execution_id == a.execution_id

-- With the number of rows affected (`:execrows`).
unfoldable pub upsert_work_execution_item :
    UpsertWorkExecutionItemParams → List WorkExecutionItem → List WorkExecutionItem × ℕ
unfolding select_one update matching
upsert_work_execution_item a t =
    if is_some (select_one (λ r. r.id == a.id) t)
    then (update (owns_item a) (merge_item a) t, matching (owns_item a) t)
    else (insert (proposed_item a) t, 1)
