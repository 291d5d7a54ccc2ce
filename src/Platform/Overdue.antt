-- ===== src/Platform/Overdue.antt =====
-- Which orders the hourly job marks missed (platform/scheduler.go).
use sdano.Base.{ℕ, Bool, false, ◌≡◌, refl, some, List, [], ◌∷◌, ◌==◌, arith, All}
use sdano.Base.Table.{select_one}
use sdano.Base.Table.Laws.{row-update}
use sdano.Store.{Store, Tenant, WorkOrder, missed}
use sdano.Queries.Tenants.{is_overdue, mark_tenant_overdue_orders_missed}
use sdano.Platform.{local_today, Run, mark_tenant, mark_tenants, mark_overdue_missed}

module _ (w : Run) (id : ℕ) where
  abbrev has_id : WorkOrder → Bool
  has_id r = r.id == id

  mark_tenant-row :
      (t : Tenant) (db : Store) (o : WorkOrder)
      → select_one has_id db.work_orders ≡ some o
      → is_overdue t.id (local_today w t.timezone) o ≡ false
      → select_one has_id (mark_tenant w t db).work_orders ≡ some o
  unfolding mark_tenant mark_tenant_overdue_orders_missed
  mark_tenant-row t db o h n = ground (
    arith,
    row-update has_id (is_overdue t.id (local_today w t.timezone))
        (λ r. record r { status = missed }) db.work_orders o (λ r. refl) h n,
  )

  mark_tenants-row :
      (ts : List Tenant) (db : Store) (o : WorkOrder)
      → select_one has_id db.work_orders ≡ some o
      → All (λ t. is_overdue t.id (local_today w t.timezone) o ≡ false) ts
      → select_one has_id (mark_tenants w ts db).work_orders ≡ some o
  unfolding mark_tenants
  mark_tenants-row [] db o h a = h
  mark_tenants-row (t ∷ ts) db o h a =
      mark_tenants-row ts (mark_tenant w t db) o (mark_tenant-row t db o h a.0) a.1

  -- The job leaves an order as it is that is not scheduled, or whose due date has not passed on
  -- the local calendar of its tenant.
  keeps_order :
      (db : Store) (o : WorkOrder)
      → select_one has_id db.work_orders ≡ some o
      → All (λ t. is_overdue t.id (local_today w t.timezone) o ≡ false) db.tenants
      → select_one has_id (mark_overdue_missed w db).work_orders ≡ some o
  unfolding mark_overdue_missed
  keeps_order db o h a = ground (arith, mark_tenants-row db.tenants db o h a)
