-- ===== src/Orders/Creation.antt =====
-- apps/api/internal/workorder/http.go: the bulk creation of work orders, one transaction.
pub mod Collected
pub mod Requested
pub mod Validated
pub mod Placed
use sdano.Base.{
  ℕ, ◌+◌, suc, Bool, not, Option, none, some, String, List, [], ◌∷◌, ◌++◌, ◌==◌, str_eq, map,
  length, if◌then◌else◌, Result, ok, err, ◌>>=◌, ◌>>◌, reject_if, or_err,
}
use sdano.Store.{Store, WorkOrder, WorkOrderStatus, scheduled, in_progress, done, missed}
use sdano.Queries.Worker.{contains}
use sdano.Queries.Orders.{
  count_active_objects_in_tenant, count_versions_in_tenant, count_active_workers_in_tenant,
  insert_work_order, ListWorkOrdersParams, list_work_orders, UpdateWorkOrderParams,
  update_work_order,
}
use sdano.Calendar.{Clock}
use sdano.Session.{Principal}
use sdano.Orders.{
  World, OrderError, OrderStatement, begin_tx, count_objects, count_versions, count_workers,
  commit_tx, insert_row, list_rows, update_row, invalid_order_batch, invalid_uuid, invalid_date,
  invalid_status, invalid_reference, work_order_not_found, failed_statement, run_statement,
  parse_optional,
}

pub record OrderCreateBody : Type 0 where
  pub object_id : String
  pub version_id : String
  pub assignee_id : Option String
  pub due_date : String

pub record ParsedOrder : Type 0 where
  pub id : ℕ
  pub object_id : ℕ
  pub version_id : ℕ
  pub assignee_id : Option ℕ
  pub due_date : ℕ

-- What `parseOrderBatch` collects; a Go set is a list without repetitions.
pub record Batch : Type 0 where
  pub parsed : List ParsedOrder
  pub object_ids : List ℕ
  pub version_ids : List ℕ
  pub assignee_ids : List ℕ

abbrev pub add_id : ℕ → List ℕ → List ℕ
add_id id ids = if contains ids id then ids else ids ++ id ∷ []

abbrev pub add_ids : Option ℕ → List ℕ → List ℕ
add_ids none ids = ids
add_ids (some id) ids = add_id id ids

-- One item; `k` counts the items before it.
unfoldable pub parse_order : World → ℕ → OrderCreateBody → Result OrderError ParsedOrder
unfolding parse_optional
parse_order w k item = do
  object_id ← or_err (w.parse_uuid item.object_id) invalid_uuid
  version_id ← or_err (w.parse_uuid item.version_id) invalid_uuid
  assignee_id ← parse_optional w.parse_uuid invalid_uuid item.assignee_id
  due ← or_err (w.parse_date item.due_date) invalid_date
  ok (record {
    id = w.new_id k;
    object_id = object_id;
    version_id = version_id;
    assignee_id = assignee_id;
    due_date = due;
  })

abbrev pub add_order : ParsedOrder → Batch → Batch
add_order o b = record {
  parsed = b.parsed ++ o ∷ [];
  object_ids = add_id o.object_id b.object_ids;
  version_ids = add_id o.version_id b.version_ids;
  assignee_ids = add_ids o.assignee_id b.assignee_ids;
}

unfoldable pub parse_order_batch :
    World → ℕ → List OrderCreateBody → Batch → Result OrderError Batch
unfolding parse_order contains
parse_order_batch w k [] b = ok b
parse_order_batch w k (item ∷ items) b =
    parse_order w k item >>= λ o. parse_order_batch w (suc k) items (add_order o b)

-- `if len(ids) > 0 { n := count(ids); if n != len(ids) { … } }`.
abbrev pub check_count : World → OrderStatement → List ℕ → ℕ → Result OrderError (Unit {0})
check_count w s [] n = ok tt
check_count w s (id ∷ ids) n = do
  run_statement w s
  reject_if (not (n == length (id ∷ ids))) invalid_reference

unfoldable pub validate_order_references : World → ℕ → Batch → Store → Result OrderError (Unit {0})
validate_order_references w tenant_id b db = do
  check_count w count_objects b.object_ids
      (count_active_objects_in_tenant tenant_id b.object_ids db.objects)
  check_count w count_versions b.version_ids (count_versions_in_tenant tenant_id b.version_ids db)
  check_count w count_workers b.assignee_ids
      (count_active_workers_in_tenant tenant_id b.assignee_ids db.users)

-- The row that the database makes, with its defaults.
abbrev pub new_order : World → ℕ → ParsedOrder → WorkOrder
new_order w tenant_id o = record {
  id = o.id;
  tenant_id = tenant_id;
  object_id = o.object_id;
  version_id = o.version_id;
  assignee_id = o.assignee_id;
  due_date = o.due_date;
  status = scheduled;
  created_at = w.now;
}

unfoldable pub insert_orders :
    World → ℕ → List ParsedOrder → List WorkOrder → Result OrderError (List WorkOrder)
unfolding insert_work_order
insert_orders w tenant_id [] t = ok t
insert_orders w tenant_id (o ∷ orders) t = do
  run_statement w (insert_row o.id)
  t' ← or_err (insert_work_order (new_order w tenant_id o) t) (failed_statement (insert_row o.id))
  insert_orders w tenant_id orders t'

abbrev pub empty_batch : Batch
empty_batch = record { parsed = []; object_ids = []; version_ids = []; assignee_ids = [] }

-- `none` is a JSON `null`.
abbrev pub given_orders : Option (List OrderCreateBody) → Result OrderError (List OrderCreateBody)
given_orders body = or_err body invalid_order_batch

unfoldable pub create_tx :
    World
    → Principal
    → Option (List OrderCreateBody)
    → Store
    → Result OrderError (List WorkOrder × List ℕ)
create_tx w p body db = do
  items ← given_orders body
  b ← parse_order_batch w 0 items empty_batch
  run_statement w begin_tx
  validate_order_references w p.tenant_id b db
  t ← insert_orders w p.tenant_id b.parsed db.work_orders
  run_statement w commit_tx
  ok (t, map (λ o. o.id) b.parsed)

abbrev pub committed :
    Store → Result OrderError (List WorkOrder × List ℕ) → Store × Result OrderError (List ℕ)
committed db (err e) = (db, err e)
committed db (ok (t, ids)) = (record db { work_orders = t }, ok ids)

unfoldable pub create_staff_work_orders :
    World → Principal → Option (List OrderCreateBody) → Store → Store × Result OrderError (List ℕ)
create_staff_work_orders w p body db = committed db (create_tx w p body db)
