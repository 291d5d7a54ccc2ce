-- ===== src/Platform/Suspension.antt =====
-- What the operator's calls do to a tenant and to the audit (platform/ops.go).
use sdano.Base.{
  ℕ, Bool, true, false, ◌≡◌, refl, Option, none, some, List, [], ◌∷◌, String, ◌==◌, str_eq, is_some,
  Bool-cases, subst, coalesce, All, Result, ok, err, Result-cases, Option-cases, inl, inr, arith,
}
use sdano.Base.Table.{insert}
use sdano.Base.Table.Laws.{All-update, All-insert}
use sdano.Base.Int.{ℤ, pos, negsuc}
use sdano.Store.{Store, Tenant, TenantStatus, active, suspended}
use sdano.Queries.Auth.{get_tenant}
use sdano.Queries.Tenants.{
  get_tenant_suspension, ops_set_tenant_status, ops_set_billing, ops_create_tenant,
}
use sdano.Platform.Creation as Creations
use sdano.Platform.Creation.{
  CreateTenantResult, new_tenant, create_tenant_tx, create_tenant_call, trim_space,
  generate_password,
}
use sdano.Platform.{
  OpsStatement, OpsError, tenant_not_found, begin_tx, look_up, commit, set_status_tx, ops_suspend,
  ops_activate, note_pointer, set_billing_tx, ops_set_billing_call, assert_tenant_exists,
}

pub data OpsChange : Type 0 where
  suspend : (OpsStatement → Bool) → ℕ → ℕ → String → OpsChange
  activate : (OpsStatement → Bool) → ℕ → OpsChange
  bill : (OpsStatement → Bool) → (ℕ → String) → ℕ → ℕ → String → OpsChange

unfoldable pub call : OpsChange → Store → Store × Result OpsError (Unit {0})
unfolding ops_suspend ops_activate ops_set_billing_call
call (suspend fault now id note) db = ops_suspend fault now id note db
call (activate fault id) db = ops_activate fault id db
call (bill fault format id until note) db = ops_set_billing_call fault format id until note db

-- Every call of the operator that writes: a change of a tenant, or the creation of one.
pub data OpsCall : Type 0 where
  changes : OpsChange → OpsCall
  creates : Creations.World → String → ℤ → OpsCall

unfoldable pub apply : OpsCall → Store → Store
unfolding call Creations.ops_create_tenant_call
apply (changes o) db = (call o db).0
apply (creates w name days) db = (Creations.ops_create_tenant_call w name days db).0

unfoldable pub calls : List OpsCall → Store → Store
unfolding apply
calls [] db = db
calls (o ∷ os) db = calls os (apply o db)

abbrev pub tenant_of : OpsChange → ℕ
tenant_of (suspend fault now id note) = id
tenant_of (activate fault id) = id
tenant_of (bill fault format id until note) = id

abbrev pub fault_of : OpsChange → OpsStatement → Bool
fault_of (suspend fault now id note) = fault
fault_of (activate fault id) = fault
fault_of (bill fault format id until note) = fault

abbrev pub is_suspended : TenantStatus → Bool
is_suspended suspended = true
is_suspended _ = false

-- A tenant is suspended exactly if it has the instant of its suspension.
abbrev pub Agrees : Store → Type 0
Agrees db = All (λ t. is_suspended t.status ≡ is_some t.suspended_at) db.tenants

pub set_status_tx-tenants :
    (fault : OpsStatement → Bool) (id : ℕ) (status : TenantStatus) (at : Option ℕ) (action : String)
    (detail : List (String × String)) (db db' : Store)
    → set_status_tx fault id status at action detail db ≡ ok db'
    → db'.tenants ≡ ops_set_tenant_status id status at db.tenants
unfolding set_status_tx
set_status_tx-tenants fault id status at action detail db db' h = ground arith

set_status-Agrees :
    (fault : OpsStatement → Bool) (id : ℕ) (status : TenantStatus) (at : Option ℕ) (action : String)
    (detail : List (String × String)) (db : Store)
    → is_suspended status ≡ is_some at
    → Agrees db
    → Agrees (commit db (set_status_tx fault id status at action detail db)).0
unfolding ops_set_tenant_status
set_status-Agrees fault id status at action detail db same h =
    elim (Result-cases (set_status_tx fault id status at action detail db)) [
      | inr (e, f) ↦ rw (f, commit) h
      | inl (db', f) ↦
          rw (f, commit, set_status_tx-tenants fault id status at action detail db db' f)
            (All-update (λ t. is_suspended t.status ≡ is_some t.suspended_at) (λ t. t.id == id)
              (λ t. record t { status = status; suspended_at = at }) db.tenants (λ t k _. same) h)
    ]

set_billing_tx-tenants :
    (fault : OpsStatement → Bool) (format : ℕ → String) (id until : ℕ) (note : String)
    (db db' : Store)
    → set_billing_tx fault format id until note db ≡ ok db'
    → db'.tenants ≡ ops_set_billing id until (note_pointer note) db.tenants
unfolding set_billing_tx
set_billing_tx-tenants fault format id until note db db' h = ground arith

call-Agrees : (o : OpsChange) (db : Store) → Agrees db → Agrees (call o db).0
unfolding call ops_suspend ops_activate ops_set_billing_call ops_set_billing
call-Agrees (suspend fault now id note) db h =
    set_status-Agrees fault id suspended (some now) _ _ db refl h
call-Agrees (activate fault id) db h = set_status-Agrees fault id active none _ _ db refl h
call-Agrees (bill fault format id until note) db h =
    elim (Result-cases (set_billing_tx fault format id until note db)) [
      | inr (e, f) ↦ rw (f, commit) h
      | inl (db', f) ↦
          rw (f, commit, set_billing_tx-tenants fault format id until note db db' f)
            (All-update (λ t. is_suspended t.status ≡ is_some t.suspended_at) (λ t. t.id == id)
              (λ t. record t {
                billed_until = some until;
                plan_note = coalesce (note_pointer note) t.plan_note;
              })
              db.tenants (λ t k _. k) h)
    ]

create_tenant_tx-tenants :
    (w : Creations.World) (name : String) (days : ℕ) (password : String) (db : Store)
    (r : Store × CreateTenantResult)
    → create_tenant_tx w name days password db ≡ ok r
    → ops_create_tenant (new_tenant w name days) db.tenants ≡ some r.0.tenants
unfolding create_tenant_tx
create_tenant_tx-tenants w name days password db r h =
    elim (Option-cases (ops_create_tenant (new_tenant w name days) db.tenants)) [
      | inl n ↦ absurd (ground (arith, h))
      | inr (t, n) ↦ ground (arith, h)
    ]

inserted-All :
    (P : Tenant → Type 0) (r : Tenant) (t t' : List Tenant)
    → ops_create_tenant r t ≡ some t'
    → All P t
    → P r
    → All P t'
unfolding ops_create_tenant
inserted-All P r t t' made h k = elim (Bool-cases (is_some (get_tenant r.id t))) [
  | inl e ↦ absurd (cc (rw e at made))
  | inr e ↦
      let same : insert r t ≡ t' = cc (rw e at made) in subst (All P) same (All-insert P r t h k)
]

-- A new tenant is on trial and not suspended.
created-Agrees :
    (w : Creations.World) (name : String) (days : ℕ) (password : String) (db : Store)
    → Agrees db
    → Agrees (Creations.committed db (create_tenant_tx w name days password db)).0
created-Agrees w name days password db h =
    elim (Result-cases (create_tenant_tx w name days password db)) [
      | inr (e, f) ↦ rw (f, Creations.committed) h
      | inl (r, f) ↦
          rw (f, Creations.committed)
            (inserted-All (λ t. is_suspended t.status ≡ is_some t.suspended_at)
              (new_tenant w name days) db.tenants r.0.tenants
              (create_tenant_tx-tenants w name days password db r f) h refl)
    ]

call_creates :
    (w : Creations.World) (name : String) (days : ℤ) (db : Store)
    → Agrees db
    → Agrees (Creations.ops_create_tenant_call w name days db).0
unfolding Creations.ops_create_tenant_call create_tenant_call
call_creates w name (negsuc n) db h = elim (Bool-cases (str_eq (trim_space name) "")) [
  | inl e ↦ rw e h
  | inr e ↦ rw e h
]
call_creates w name (pos n) db h = elim (Bool-cases (str_eq (trim_space name) "")) [
  | inl e ↦ rw e h
  | inr e ↦ elim (Option-cases (generate_password w)) [
    | inl g ↦ rw (e, g) h
    | inr (password, g) ↦ rw (e, g) (created-Agrees w (trim_space name) n password db h)
  ]
]

apply-Agrees : (o : OpsCall) (db : Store) → Agrees db → Agrees (apply o db)
unfolding apply
apply-Agrees (changes o) db h = call-Agrees o db h
apply-Agrees (creates w name days) db h = call_creates w name days db h

-- Whatever the operator's calls are, the creation of a tenant among them, and whichever statements
-- fail, a tenant is suspended exactly if its `suspended_at` is set, where this holds at first.
pub suspension-Agrees : (os : List OpsCall) (db : Store) → Agrees db → Agrees (calls os db)
unfolding calls
suspension-Agrees [] db h = h
suspension-Agrees (o ∷ os) db h = suspension-Agrees os (apply o db) (apply-Agrees o db h)

no_tenant :
    (fault : OpsStatement → Bool) (id : ℕ) (db : Store)
    → get_tenant id db.tenants ≡ none
    → fault look_up ≡ false
    → assert_tenant_exists fault id db ≡ err tenant_not_found
unfolding assert_tenant_exists get_tenant_suspension
no_tenant fault id db h up = ground arith

no_tenant-set_status :
    (fault : OpsStatement → Bool) (id : ℕ) (status : TenantStatus) (at : Option ℕ) (action : String)
    (detail : List (String × String)) (db : Store)
    → get_tenant id db.tenants ≡ none
    → fault begin_tx ≡ false
    → fault look_up ≡ false
    → set_status_tx fault id status at action detail db ≡ err tenant_not_found
unfolding set_status_tx
no_tenant-set_status fault id status at action detail db h up up' =
    rw (up, no_tenant fault id db h up') refl

no_tenant-set_billing :
    (fault : OpsStatement → Bool) (format : ℕ → String) (id until : ℕ) (note : String) (db : Store)
    → get_tenant id db.tenants ≡ none
    → fault begin_tx ≡ false
    → fault look_up ≡ false
    → set_billing_tx fault format id until note db ≡ err tenant_not_found
unfolding set_billing_tx
no_tenant-set_billing fault format id until note db h up up' =
    rw (up, no_tenant fault id db h up') refl

-- A call on a tenant that does not exist says so and leaves no trace, not even in the audit, where
-- the transaction begins and the lookup does not fail.
missing_tenant :
    (o : OpsChange) (db : Store)
    → get_tenant (tenant_of o) db.tenants ≡ none
    → fault_of o begin_tx ≡ false
    → fault_of o look_up ≡ false
    → call o db ≡ (db, err tenant_not_found)
unfolding call ops_suspend ops_activate ops_set_billing_call
missing_tenant (suspend fault now id note) db h up up' =
    rw
      (no_tenant-set_status fault id suspended (some now) "tenant.suspend" (("note", note) ∷ []) db
        h up up')
      refl
missing_tenant (activate fault id) db h up up' =
    rw (no_tenant-set_status fault id active none "tenant.activate" [] db h up up') refl
missing_tenant (bill fault format id until note) db h up up' =
    rw (no_tenant-set_billing fault format id until note db h up up') refl
