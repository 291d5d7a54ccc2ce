-- ===== src/Queries/Orders.antt =====
-- apps/api/internal/db/staff.sql.go: the statements on work orders of staff.
use sdano.Base.{
  ℕ, Bool, true, false, ◌&&◌, ◌||◌, Option, none, some, List, ◌==◌, ltb, is_some, coalesce,
  if◌then◌else◌,
}
use sdano.Base.Table.{select_one, select, update, insert, matching}
use sdano.Base.Sorting.{sort_by, take}
use sdano.Store.{
  Store, AppUser, Object, WorkOrder, WorkOrderStatus, scheduled, in_progress, done, missed,
}
use sdano.Middleware.{is_worker}
use sdano.Queries.Worker.{contains, template_of_tenant}
use sdano.Queries.Objects.{or_else, fits_id}

-- === references ===

unfoldable pub count_active_objects_in_tenant : ℕ → List ℕ → List Object → ℕ
unfolding matching contains
count_active_objects_in_tenant tenant_id ids =
    matching (λ o. (o.tenant_id == tenant_id && o.is_active) && contains ids o.id)

unfoldable pub count_versions_in_tenant : ℕ → List ℕ → Store → ℕ
unfolding matching contains template_of_tenant
count_versions_in_tenant tenant_id ids db =
    matching
      (λ v. template_of_tenant tenant_id db.checklist_templates v.template_id && contains ids v.id)
      db.checklist_versions

abbrev pub is_active_worker : ℕ → AppUser → Bool
is_active_worker tenant_id u = u.tenant_id == tenant_id && (is_worker u.role && u.is_active)

unfoldable pub count_active_workers_in_tenant : ℕ → List ℕ → List AppUser → ℕ
unfolding matching contains
count_active_workers_in_tenant tenant_id ids =
    matching (λ u. is_active_worker tenant_id u && contains ids u.id)

-- === work orders ===

-- `none` is a unique violation of the primary key.
unfoldable pub insert_work_order : WorkOrder → List WorkOrder → Option (List WorkOrder)
unfolding select_one
insert_work_order r t =
    if is_some (select_one (λ x. x.id == r.id) t) then none else some (insert r t)

abbrev pub status_eq : WorkOrderStatus → WorkOrderStatus → Bool
status_eq scheduled scheduled = true
status_eq in_progress in_progress = true
status_eq done done = true
status_eq missed missed = true
status_eq _ _ = false

abbrev pub fits_date : Option ℕ → ℕ → Bool
fits_date none d = true
fits_date (some k) d = d == k

abbrev pub fits_status : Option WorkOrderStatus → WorkOrderStatus → Bool
fits_status none s = true
fits_status (some k) s = status_eq s k

pub record ListWorkOrdersParams : Type 0 where
  pub tenant_id : ℕ
  pub due_date : Option ℕ
  pub object_id : Option ℕ
  pub assignee_id : Option ℕ
  pub status : Option WorkOrderStatus

abbrev pub fits_order : ListWorkOrdersParams → WorkOrder → Bool
fits_order a r =
    r.tenant_id == a.tenant_id
    && (fits_date a.due_date r.due_date
        && (fits_id a.object_id (some r.object_id)
            && (fits_id a.assignee_id r.assignee_id && fits_status a.status r.status)))

-- `ORDER BY due_date DESC, created_at DESC`.
abbrev pub is_later : WorkOrder → WorkOrder → Bool
is_later a b =
    ltb b.due_date a.due_date || (b.due_date == a.due_date && ltb b.created_at a.created_at)

unfoldable pub list_work_orders : ListWorkOrdersParams → List WorkOrder → List WorkOrder
unfolding take sort_by select
list_work_orders a t = take 500 (sort_by is_later (select (fits_order a) t))

pub record UpdateWorkOrderParams : Type 0 where
  pub assignee_id : Option ℕ
  pub due_date : Option ℕ
  pub id : ℕ
  pub tenant_id : ℕ

abbrev pub is_order_of : ℕ → ℕ → WorkOrder → Bool
is_order_of id tenant_id r = r.id == id && r.tenant_id == tenant_id

abbrev pub rescheduled : UpdateWorkOrderParams → WorkOrder → WorkOrder
rescheduled a r = record r {
  assignee_id = coalesce a.assignee_id r.assignee_id;
  due_date = or_else a.due_date r.due_date;
}

abbrev pub update_found :
    UpdateWorkOrderParams → List WorkOrder → Option WorkOrder → Option (List WorkOrder × WorkOrder)
update_found a t none = none
update_found a t (some r) =
    some (update (is_order_of a.id a.tenant_id) (rescheduled a) t, rescheduled a r)

-- With the row that it returns; `none` is `pgx.ErrNoRows`.
unfoldable pub update_work_order :
    UpdateWorkOrderParams → List WorkOrder → Option (List WorkOrder × WorkOrder)
unfolding select_one update
update_work_order a t = update_found a t (select_one (is_order_of a.id a.tenant_id) t)
