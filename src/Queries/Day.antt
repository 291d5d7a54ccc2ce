-- ===== src/Queries/Day.antt =====
-- apps/api/internal/db/worker.sql.go and staff.sql.go: the reads of the worker's day and of the
-- dashboard. `collate` is the database's order of texts.
use sdano.Base.{ℕ, Bool, ◌&&◌, ◌||◌, Option, none, some, String, List, ◌==◌, ltb, opt_eq, [], ◌∷◌}
use sdano.Base.Table.{select_one, select}
use sdano.Base.Sorting.{sort_by, collect}
use sdano.Store.{
  Store, AppUser, Object, WorkOrder, WorkOrderStatus, WorkExecution, ChecklistTemplateItem,
}
use sdano.Queries.Worker.{list_checklist_items_by_versions}
use sdano.Queries.Objects.{count_uploaded}

pub record ListWorkerTodayOrdersRow : Type 0 where
  pub id : ℕ
  pub object_id : ℕ
  pub due_date : ℕ
  pub status : WorkOrderStatus
  pub version_id : ℕ
  pub object_name : String
  pub address : Option String
  pub lat : Option ℕ
  pub lon : Option ℕ
  pub qr_token : Option String

abbrev pub today_row : WorkOrder → Object → ListWorkerTodayOrdersRow
today_row r o = record {
  id = r.id;
  object_id = r.object_id;
  due_date = r.due_date;
  status = r.status;
  version_id = r.version_id;
  object_name = o.name;
  address = o.address;
  lat = o.lat;
  lon = o.lon;
  qr_token = o.qr_token;
}

-- `JOIN object o ON o.id = wo.object_id AND o.tenant_id = wo.tenant_id`.
unfoldable pub object_at : Store → WorkOrder → Option Object
unfolding select_one
object_at db r = select_one (λ o. o.id == r.object_id && o.tenant_id == r.tenant_id) db.objects

abbrev pub with_object : {A : Type 0} → (Object → A) → Option Object → Option A
with_object f none = none
with_object f (some o) = some (f o)

abbrev pub is_mine_today : ℕ → ℕ → ℕ → WorkOrder → Bool
is_mine_today tenant_id assignee_id due_date r =
    r.tenant_id == tenant_id && (opt_eq r.assignee_id assignee_id && r.due_date == due_date)

unfoldable pub list_worker_today_orders :
    (String → String → Bool) → ℕ → ℕ → ℕ → Store → List ListWorkerTodayOrdersRow
unfolding collect select sort_by object_at
list_worker_today_orders collate tenant_id assignee_id due_date db =
    sort_by (λ a b. collate a.object_name b.object_name)
      (collect (λ r. with_object (today_row r) (object_at db r))
        (select (is_mine_today tenant_id assignee_id due_date) db.work_orders))

-- === the dashboard ===

pub record ListDashboardOrdersRow : Type 0 where
  pub order_id : ℕ
  pub status : WorkOrderStatus
  pub due_date : ℕ
  pub object_id : ℕ
  pub object_name : String
  pub address : Option String
  pub lat : Option ℕ
  pub lon : Option ℕ
  pub worker_name : Option String
  pub last_finished_at : Option ℕ
  pub last_activity_at : Option ℕ
  pub photo_count : ℕ

abbrev pub is_more_recent : WorkExecution → WorkExecution → Bool
is_more_recent a b =
    ltb b.created_at a.created_at || (b.created_at == a.created_at && ltb b.id a.id)

abbrev pub first_row {ℓ} : {A : Type ℓ} → List A → Option A
first_row [] = none
first_row (a ∷ t) = some a

-- `DISTINCT ON (wo.id) … ORDER BY wo.id, e.created_at DESC NULLS LAST, e.id DESC` keeps of an order
-- the row of its latest execution.
unfoldable pub latest_execution : Store → WorkOrder → Option WorkExecution
unfolding sort_by select
latest_execution db r = first_row (
    sort_by is_more_recent
      (select (λ e. e.work_order_id == r.id && e.tenant_id == r.tenant_id) db.executions))

abbrev pub worker_of : List AppUser → Option WorkExecution → Option String
worker_of users none = none
worker_of users (some e) = elim (select_one (λ u. u.id == e.worker_id) users) [
  | none ↦ none
  | some u ↦ some u.display_name
]

abbrev pub finished_of : Option WorkExecution → Option ℕ
finished_of none = none
finished_of (some e) = e.finished_at

abbrev pub created_of : Option WorkExecution → Option ℕ
created_of none = none
created_of (some e) = some e.created_at

abbrev pub photos_of : Store → Option WorkExecution → ℕ
photos_of db none = 0
photos_of db (some e) = count_uploaded e.id db.photos

abbrev pub dashboard_row :
    Store → WorkOrder → Option WorkExecution → Object → ListDashboardOrdersRow
dashboard_row db r e o = record {
  order_id = r.id;
  status = r.status;
  due_date = r.due_date;
  object_id = o.id;
  object_name = o.name;
  address = o.address;
  lat = o.lat;
  lon = o.lon;
  worker_name = worker_of db.users e;
  last_finished_at = finished_of e;
  last_activity_at = created_of e;
  photo_count = photos_of db e;
}

abbrev pub is_due : ℕ → ℕ → WorkOrder → Bool
is_due tenant_id due_date r = r.tenant_id == tenant_id && r.due_date == due_date

unfoldable pub list_dashboard_orders :
    (String → String → Bool) → ℕ → ℕ → Store → List ListDashboardOrdersRow
unfolding collect select sort_by object_at latest_execution
list_dashboard_orders collate tenant_id due_date db =
    sort_by (λ a b. collate a.object_name b.object_name)
      (collect (λ r. with_object (dashboard_row db r (latest_execution db r)) (object_at db r))
        (select (is_due tenant_id due_date) db.work_orders))

-- `ORDER BY i.version_id, i.position` over the rows of `ListChecklistItemsByVersions`.
abbrev pub comes_before : ChecklistTemplateItem → ChecklistTemplateItem → Bool
comes_before a b =
    ltb a.version_id b.version_id || (a.version_id == b.version_id && ltb a.position b.position)

unfoldable pub sorted_checklist_items : List ℕ → ℕ → Store → List ChecklistTemplateItem
unfolding sort_by list_checklist_items_by_versions
sorted_checklist_items version_ids tenant_id db =
    sort_by comes_before (list_checklist_items_by_versions version_ids tenant_id db)
