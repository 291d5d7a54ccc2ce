-- ===== src/Queries/Tenants.antt =====
-- apps/api/internal/db/platform.sql.go: the statements on tenants, the audit and overdue orders.
use sdano.Base.{
  ℕ, Bool, ◌&&◌, true, false, Option, none, some, String, List, ◌==◌, ltb, coalesce, is_some, ◌||◌,
  if◌then◌else◌, map,
}
use sdano.Base.Table.{select_one, update, insert, matching}
use sdano.Base.Sorting.{sort_by}
use sdano.Store.{
  Store, AppUser, Object, Tenant, TenantStatus, WorkOrder, WorkOrderStatus, scheduled, missed,
  OpsAudit,
}
use sdano.Queries.Orders.{is_active_worker}
use sdano.Queries.Auth.{get_tenant, email_is}

-- The outer `none` is `pgx.ErrNoRows`.
unfoldable pub get_tenant_suspension : ℕ → List Tenant → Option (Option ℕ)
unfolding get_tenant
get_tenant_suspension id t = elim (get_tenant id t) [ none ↦ none | some r ↦ some r.suspended_at ]

unfoldable pub ops_set_tenant_status : ℕ → TenantStatus → Option ℕ → List Tenant → List Tenant
unfolding update
ops_set_tenant_status id status suspended_at =
    update (λ r. r.id == id) (λ r. record r { status = status; suspended_at = suspended_at })

unfoldable pub ops_set_billing : ℕ → ℕ → Option String → List Tenant → List Tenant
unfolding update
ops_set_billing id billed_until plan_note =
    update (λ r. r.id == id)
      (λ r. record r {
        billed_until = some billed_until;
        plan_note = coalesce plan_note r.plan_note;
      })

unfoldable pub insert_ops_audit : OpsAudit → List OpsAudit → List OpsAudit
insert_ops_audit r t = insert r t

abbrev pub is_scheduled : WorkOrderStatus → Bool
is_scheduled scheduled = true
is_scheduled _ = false

abbrev pub is_overdue : ℕ → ℕ → WorkOrder → Bool
is_overdue tenant_id today r =
    r.tenant_id == tenant_id && (is_scheduled r.status && ltb r.due_date today)

unfoldable pub mark_tenant_overdue_orders_missed : ℕ → ℕ → List WorkOrder → List WorkOrder
unfolding update
mark_tenant_overdue_orders_missed tenant_id today =
    update (is_overdue tenant_id today) (λ r. record r { status = missed })

unfoldable pub get_tenant_timezone : ℕ → List Tenant → Option String
unfolding get_tenant
get_tenant_timezone id t = elim (get_tenant id t) [ none ↦ none | some r ↦ some r.timezone ]

-- === operator calls ===

-- `none` is a violation of the primary key.
unfoldable pub ops_create_tenant : Tenant → List Tenant → Option (List Tenant)
unfolding get_tenant
ops_create_tenant r t = if is_some (get_tenant r.id t) then none else some (insert r t)

abbrev pub has_email : (String → String → Bool) → Option String → AppUser → Bool
has_email same none u = false
has_email same (some email) u = email_is same email u.email

-- `none` is a unique violation: of the primary key, or of the email, which is `citext`.
unfoldable pub ops_insert_admin_user :
    (String → String → Bool) → AppUser → List AppUser → Option (List AppUser)
unfolding select_one
ops_insert_admin_user same u t =
    if is_some (select_one (λ (x : AppUser). x.id == u.id) t)
      || is_some (select_one (has_email same u.email) t)
    then none
    else some (insert u t)

pub record OpsListTenantsRow : Type 0 where
  pub id : ℕ
  pub name : String
  pub status : TenantStatus
  pub timezone : String
  pub trial_ends_at : Option ℕ
  pub billed_until : Option ℕ
  pub suspended_at : Option ℕ
  pub active_workers : ℕ
  pub active_objects : ℕ

abbrev pub listed_tenant : Store → Tenant → OpsListTenantsRow
listed_tenant db t = record {
  id = t.id;
  name = t.name;
  status = t.status;
  timezone = t.timezone;
  trial_ends_at = t.trial_ends_at;
  billed_until = t.billed_until;
  suspended_at = t.suspended_at;
  active_workers = matching (is_active_worker t.id) db.users;
  active_objects = matching (λ (o : Object). o.tenant_id == t.id && o.is_active) db.objects;
}

unfoldable pub ops_list_tenants : (String → String → Bool) → Store → List OpsListTenantsRow
unfolding sort_by matching
ops_list_tenants collate db =
    sort_by (λ a b. collate a.name b.name) (map (listed_tenant db) db.tenants)
