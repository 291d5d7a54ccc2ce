-- ===== src/Orders/Creation/Validated.antt =====
-- What the check of a batch's references ensures (workorder/http.go, `validateOrderReferences`).
use sdano.Base.{
  ℕ, ◌≡◌, refl, subst, Bool, true, ◌&&◌, not, Option, none, some, List, [], ◌∷◌, ◌==◌, map, length,
  All, ok, ◌>>=◌, reject_if, Bool-cases, Result-cases, inl, inr, arith,
}
use sdano.Base.Table.{matching}
use sdano.Base.Table.Keys.{Unique}
use sdano.Store.{Store, WorkOrder, scheduled, AppUser, Object, ChecklistTemplateVersion}
use sdano.Queries.Worker.{contains, template_of_tenant}
use sdano.Queries.Orders.{
  count_active_objects_in_tenant, count_versions_in_tenant, count_active_workers_in_tenant,
  is_active_worker,
}
use sdano.Queries.References.{in_set, IsReferred, all_counted}
use sdano.Orders.{World, OrderError, OrderStatement, run_statement}
use sdano.Orders.Creation.{ParsedOrder, Batch, check_count, validate_order_references, new_order}
use sdano.Orders.Creation.Collected.{Holds, IsCollected}

All-contains {ℓ} : (P : ℕ → Type ℓ) (ids : List ℕ) (x : ℕ) → All P ids → contains ids x ≡ true → P x
unfolding contains
All-contains P [] x a h = absurd (cc)
All-contains P (y ∷ ids) x a h = elim (Bool-cases (y == x)) [
  | inl e ↦ let same : y ≡ x = ground arith in subst P same a.0
  | inr e ↦ All-contains P ids x a.1 (rw e at h)
]

-- A check that passes has found a row for each id.
check_count_sound {ℓ} :
    {R : Type ℓ} (key : R → ℕ) (q : R → Bool) (t : List R) (w : World) (s : OrderStatement)
    (ids : List ℕ) (u : Unit {0})
    → Unique key t
    → check_count w s ids (matching (in_set key q ids) t) ≡ ok u
    → All (IsReferred key q t) ids
check_count_sound key q t w s [] u unique h = tt
check_count_sound key q t w s (x ∷ ids) u unique h =
    all_counted key q (x ∷ ids) t unique
      (equal_counts (matching (in_set key q (x ∷ ids)) t) (length (x ∷ ids)) h)
  where
    equal_counts :
        (n m : ℕ)
        → (run_statement w s >>= λ _. reject_if (not (n == m)) OrderError.invalid_reference) ≡ ok u
        → n ≡ m
    equal_counts n m h = ground arith

abbrev pub template_of : ℕ → Store → ChecklistTemplateVersion → Bool
template_of tenant_id db v = template_of_tenant tenant_id db.checklist_templates v.template_id

abbrev pub active_object : ℕ → Object → Bool
active_object tenant_id o = o.tenant_id == tenant_id && o.is_active

abbrev pub AssigneeWorks : ℕ → Store → Option ℕ → Type 0
AssigneeWorks tenant_id db none = Unit
AssigneeWorks tenant_id db (some a) =
    IsReferred (λ (u : AppUser). u.id) (is_active_worker tenant_id) db.users a

-- A scheduled order of the tenant, for an active object, a checklist version and an active worker
-- of the tenant.
pub record IsPlaced (tenant_id : ℕ) (db : Store) (r : WorkOrder) : Type 0 where
  pub tenant : r.tenant_id ≡ tenant_id
  pub status : r.status ≡ scheduled
  pub object : IsReferred (λ (o : Object). o.id) (active_object tenant_id) db.objects r.object_id
  pub version :
      IsReferred
        (λ (v : ChecklistTemplateVersion). v.id)
        (template_of tenant_id db)
        db.checklist_versions
        r.version_id
  pub assignee : AssigneeWorks tenant_id db r.assignee_id

-- The primary keys that the checks rely on.
pub record Keyed (db : Store) : Type 0 where
  pub objects : Unique (λ (o : Object). o.id) db.objects
  pub versions : Unique (λ (v : ChecklistTemplateVersion). v.id) db.checklist_versions
  pub users : Unique (λ (u : AppUser). u.id) db.users

module _ (w : World) (tenant_id : ℕ) (db : Store) (keyed : Keyed db) where
  abbrev pub AllReferred : Batch → Type 0
  AllReferred b =
      All (IsReferred (λ (o : Object). o.id) (active_object tenant_id) db.objects) b.object_ids
      × (All
            (IsReferred (λ (v : ChecklistTemplateVersion). v.id) (template_of tenant_id db)
              db.checklist_versions)
            b.version_ids
          × All (IsReferred (λ (u : AppUser). u.id) (is_active_worker tenant_id) db.users)
              b.assignee_ids)

  pub validated :
      (b : Batch) (u : Unit {0}) → validate_order_references w tenant_id b db ≡ ok u → AllReferred b
  unfolding validate_order_references count_active_objects_in_tenant count_versions_in_tenant
      count_active_workers_in_tenant
  validated b u h =
      elim (Result-cases (
        check_count w OrderStatement.count_objects b.object_ids
          (count_active_objects_in_tenant tenant_id b.object_ids db.objects))) [
            | inr (e, f) ↦ absurd (cc (rw f at h))
            | inl (x, f) ↦
                elim (Result-cases (
                  check_count w OrderStatement.count_versions b.version_ids
                    (count_versions_in_tenant tenant_id b.version_ids db))) [
                      | inr (e, g) ↦ absurd (cc (rw (f, g) at h))
                      | inl (y, g) ↦ (
                        check_count_sound (λ (o : Object). o.id) (active_object tenant_id)
                            db.objects w OrderStatement.count_objects b.object_ids x keyed.objects
                            f,
                        (
                          check_count_sound (λ (v : ChecklistTemplateVersion). v.id)
                              (template_of tenant_id db) db.checklist_versions w
                              OrderStatement.count_versions b.version_ids y keyed.versions g,
                          check_count_sound (λ (v : AppUser). v.id) (is_active_worker tenant_id)
                              db.users w OrderStatement.count_workers b.assignee_ids u keyed.users
                              (rw (f, g) at h),
                        ),
                      )
                    ]
          ]

  assignee_works :
      (ids : List ℕ) (a : Option ℕ)
      → All (IsReferred (λ (u : AppUser). u.id) (is_active_worker tenant_id) db.users) ids
      → Holds ids a
      → AssigneeWorks tenant_id db a
  assignee_works ids none all h = tt
  assignee_works ids (some a) all h = All-contains _ ids a all h

  pub all-IsPlaced :
      (b : Batch) (orders : List ParsedOrder)
      → AllReferred b
      → All (IsCollected b) orders
      → All (IsPlaced tenant_id db) (map (new_order w tenant_id) orders)
  all-IsPlaced b [] refs c = tt
  all-IsPlaced b (o ∷ orders) refs c = (
    record {
      tenant = refl;
      status = refl;
      object = All-contains _ b.object_ids o.object_id refs.0 c.0.0;
      version = All-contains _ b.version_ids o.version_id refs.1.0 c.0.1.0;
      assignee = assignee_works b.assignee_ids o.assignee_id refs.1.1 c.0.1.1;
    },
    all-IsPlaced b orders refs c.1,
  )
