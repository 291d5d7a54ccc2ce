-- ===== src/Queries/Evidence.antt =====
-- apps/api/internal/db/staff.sql.go: the reads of an execution's evidence by staff.
use sdano.Base.{ℕ, Bool, ◌&&◌, Option, none, some, String, List, ◌==◌, is_some}
use sdano.Base.Table.{select_one, select, order_by}
use sdano.Base.Sorting.{collect}
use sdano.Store.{
  Store, AppUser, Object, WorkOrder, WorkExecution, WorkExecutionItem, ChecklistTemplateItem,
}
use sdano.Queries.Orders.{is_order_of}

pub record GetExecutionDetailRow : Type 0 where
  pub id : ℕ
  pub work_order_id : ℕ
  pub created_at : ℕ
  pub started_at : Option ℕ
  pub finished_at : Option ℕ
  pub device_finished_at : Option ℕ
  pub note : Option String
  pub worker_name : String
  pub object_id : ℕ
  pub object_name : String

abbrev pub detail_row : WorkExecution → WorkOrder → AppUser → Object → GetExecutionDetailRow
detail_row e r u o = record {
  id = e.id;
  work_order_id = e.work_order_id;
  created_at = e.created_at;
  started_at = e.started_at;
  finished_at = e.finished_at;
  device_finished_at = e.device_finished_at;
  note = e.note;
  worker_name = u.display_name;
  object_id = r.object_id;
  object_name = o.name;
}

abbrev pub is_execution_of : ℕ → ℕ → WorkExecution → Bool
is_execution_of id tenant_id e = e.id == id && e.tenant_id == tenant_id

infixl 5 ◌>>=◌
abbrev ◌>>=◌ : {A B : Type 0} → Option A → (A → Option B) → Option B
none >>= f = none
some a >>= f = f a

-- The inner joins follow primary keys.
unfoldable pub get_execution_detail : ℕ → ℕ → Store → Option GetExecutionDetailRow
unfolding select_one
get_execution_detail id tenant_id db =
    select_one (is_execution_of id tenant_id) db.executions >>= λ e.
    select_one (λ (x : AppUser). x.id == e.worker_id) db.users >>= λ u.
    select_one (is_order_of e.work_order_id e.tenant_id) db.work_orders >>= λ r.
    select_one (λ (x : Object). x.id == r.object_id && x.tenant_id == e.tenant_id) db.objects
    >>= λ o. some (detail_row e r u o)

pub record ListExecutionItemsWithTitlesRow : Type 0 where
  pub id : ℕ
  pub template_item_id : ℕ
  pub checked : Bool
  pub checked_at : Option ℕ
  pub position : ℕ
  pub title : String

abbrev pub titled :
    WorkExecutionItem → Option ChecklistTemplateItem → Option ListExecutionItemsWithTitlesRow
titled i none = none
titled i (some t) = some (record {
  id = i.id;
  template_item_id = i.template_item_id;
  checked = i.checked;
  checked_at = i.checked_at;
  position = t.position;
  title = t.title;
})

unfoldable pub list_execution_items_with_titles :
    ℕ → ℕ → Store → List ListExecutionItemsWithTitlesRow
unfolding collect select select_one order_by
list_execution_items_with_titles tenant_id execution_id db =
    order_by (λ r. r.position)
      (collect (λ i. titled i (select_one (λ t. t.id == i.template_item_id) db.checklist_items))
        (select
          (λ i.
            i.execution_id == execution_id
            && is_some (select_one (is_execution_of i.execution_id tenant_id) db.executions))
          db.execution_items))
