-- ===== src/Platform/Creation/Admin.antt =====
-- What the first admin of a new tenant can do (platform/ops.go, `OpsCreateTenant`, with `Login` of
-- auth/service.go).
use sdano.Base.{
  ℕ, Bool, true, false, ◌≡◌, refl, sym, ap, ◌∙◌, subst, Option, none, some, String, List, [], ◌∷◌,
  ◌==◌, ==_refl, str_eq, is_some, Result, ok, Bool-cases, Option-cases, Result-cases, inl, inr,
}
use sdano.Base.Int.{ℤ}
use sdano.Base.Table.{select_one, insert}
use sdano.Base.Table.Laws.{select_one-append}
use sdano.Store.{Store, Tenant, trial, AppUser, admin}
use sdano.Queries.Auth.{get_tenant, get_tenant_status, get_user_by_email}
use sdano.Queries.Tenants.{has_email, ops_create_tenant, ops_insert_admin_user, insert_ops_audit}
use sdano.Session.{Context, login_body, login_as, get_user}
use sdano.Platform.Creation.{
  World, CreateError, CreateTenantResult, begin_tx, insert_tenant, insert_admin, insert_audit,
  commit_tx, trim_space, trial_days, admin_email, generate_password, new_tenant, new_admin,
  creation_audit, create_tenant_tx, create_tenant_call, committed, ops_create_tenant_call,
}

none_of {ℓ} : {A : Type ℓ} (o : Option A) → is_some o ≡ false → o ≡ none
none_of none h = refl
none_of (some a) h = absurd (cc)

found_last {ℓ} :
    {R : Type ℓ} (p : R → Bool) (t : List R) (r : R)
    → select_one p t ≡ none
    → p r ≡ true
    → select_one p (insert r t) ≡ some r
unfolding select_one
found_last p t r h e = select_one-append p t (r ∷ []) ∙ rw (h, e) refl

status_of :
    (id : ℕ) (t : List Tenant) (r : Tenant)
    → get_tenant id t ≡ some r
    → get_tenant_status id t ≡ some r.status
unfolding get_tenant_status
status_of id t r h = rw (h, get_tenant_status) refl

tenant_stored :
    (r : Tenant) (t t' : List Tenant)
    → ops_create_tenant r t ≡ some t'
    → get_tenant_status r.id t' ≡ some r.status
unfolding ops_create_tenant get_tenant
tenant_stored r t t' h = elim (Option-cases (select_one (λ (s : Tenant). s.id == r.id) t)) [
  | inr (s, e) ↦ absurd (cc (rw e at h))
  | inl e ↦
      let made : insert r t ≡ t' = cc (rw e at h) in
      let found = found_last (λ (s : Tenant). s.id == r.id) t r e (==_refl r.id) in
      status_of r.id t' r (ap (get_tenant r.id) (sym made) ∙ found)
]

admin_stored :
    (same : String → String → Bool) (u : AppUser) (email : String) (t t' : List AppUser)
    → u.email ≡ some email
    → same email email ≡ true
    → ops_insert_admin_user same u t ≡ some t'
    → get_user_by_email same email t' ≡ some u
unfolding ops_insert_admin_user get_user_by_email
admin_stored same u email t t' e r h =
    elim (Bool-cases (is_some (select_one (λ (x : AppUser). x.id == u.id) t))) [
      | inl f ↦ absurd (cc (rw f at h))
      | inr f ↦ elim (Bool-cases (is_some (select_one (has_email same u.email) t))) [
        | inl g ↦ absurd (cc (rw (f, g) at h))
        | inr g ↦
            let made : insert u t ≡ t' = cc (rw (f, g) at h) in
            let free = subst (λ m. select_one (has_email same m) t ≡ none) e (none_of _ g) in
            ap (select_one (has_email same (some email))) (sym made)
            ∙ found_last (has_email same (some email)) t u free (rw e r)
      ]
    ]

-- What a creation that commits has inserted.
record Created (w : World) (name : String) (days : ℕ) (db : Store) (r : Store × CreateTenantResult)
    : Type 0 where
  hash : String
  hashed : w.hash_password r.1.admin_password ≡ some hash
  tenants : ops_create_tenant (new_tenant w name days) db.tenants ≡ some r.0.tenants
  users :
      ops_insert_admin_user w.same_email (new_admin w (admin_email w name) hash) db.users
      ≡ some r.0.users
  email : r.1.admin_email ≡ admin_email w name
  tenant : r.1.tenant_id ≡ w.new_tenant_id

abbrev created_value :
    World → String → String → Store → List Tenant → List AppUser → Store × CreateTenantResult
created_value w name password db tenants users = (
  record db {
    tenants = tenants;
    users = users;
    audits = insert_ops_audit (creation_audit w name) db.audits;
  },
  record {
    tenant_id = w.new_tenant_id;
    admin_email = admin_email w name;
    admin_password = password;
  },
)

create_tenant_tx-Created :
    (w : World) (name : String) (days : ℕ) (password : String) (db : Store)
    (r : Store × CreateTenantResult)
    → create_tenant_tx w name days password db ≡ ok r
    → Created w name days db r
unfolding create_tenant_tx
create_tenant_tx-Created w name days password db r h =
    elim (Option-cases (w.hash_password password)) [
      | inl n ↦ absurd (cc (rw n at h))
      | inr (hash, a) ↦ elim (Bool-cases (w.fault begin_tx)) [
        | inl f ↦ absurd (cc (rw (a, f) at h))
        | inr b ↦ elim (Bool-cases (w.fault insert_tenant)) [
          | inl f ↦ absurd (cc (rw (a, b, f) at h))
          | inr c ↦ elim (Option-cases (ops_create_tenant (new_tenant w name days) db.tenants)) [
            | inl n ↦ absurd (cc (rw (a, b, c, n) at h))
            | inr (tenants, d) ↦ elim (Bool-cases (w.fault insert_admin)) [
              | inl f ↦ absurd (cc (rw (a, b, c, d, f) at h))
              | inr f ↦
                  let row = new_admin w (admin_email w name) hash in
                  elim (Option-cases (ops_insert_admin_user w.same_email row db.users)) [
                    | inl n ↦ absurd (cc (rw (a, b, c, d, f, n) at h))
                    | inr (users, g) ↦ elim (Bool-cases (w.fault insert_audit)) [
                      | inl k ↦ absurd (cc (rw (a, b, c, d, f, g, k) at h))
                      | inr k ↦ elim (Bool-cases (w.fault commit_tx)) [
                        | inl m ↦ absurd (cc (rw (a, b, c, d, f, g, k, m) at h))
                        | inr m ↦
                            let made : created_value w name password db tenants users ≡ r =
                              cc (rw (a, b, c, d, f, g, k, m) at h) in
                            subst (Created w name days db) made (record {
                              hash = hash;
                              hashed = a;
                              tenants = d;
                              users = g;
                              email = refl;
                              tenant = refl;
                            })
                      ]
                    ]
                  ]
            ]
          ]
        ]
      ]
    ]

create_tenant_call-Created :
    (w : World) (name : String) (days : ℤ) (db : Store) (r : Store × CreateTenantResult)
    → create_tenant_call w name days db ≡ ok r
    → (n : ℕ) × Created w (trim_space name) n db r
unfolding create_tenant_call
create_tenant_call-Created w name days db r h = elim (Bool-cases (str_eq (trim_space name) "")) [
  | inl f ↦ absurd (cc (rw f at h))
  | inr f ↦ elim (Result-cases (trial_days days)) [
    | inr (e, n) ↦ absurd (cc (rw (f, n) at h))
    | inl (n, d) ↦ elim (Option-cases (generate_password w)) [
      | inl g ↦ absurd (cc (rw (f, d, g) at h))
      | inr (password, g) ↦
          (n, create_tenant_tx-Created w (trim_space name) n password db r (rw (f, d, g) at h))
    ]
  ]
]

-- The password of an active account is verified against its own hash.
passes :
    (x : Context) (email password hash : String) (u : AppUser) (db : Store)
    → x.fault get_user ≡ false
    → get_user_by_email x.crypto.same_email email db.users ≡ some u
    → u.is_active ≡ true
    → u.password_hash ≡ some hash
    → x.crypto.verify_password password hash ≡ some true
    → login_body x email password db ≡ login_as x u db
unfolding login_body
passes x email password hash u db f g a p v = rw (f, g, p, a, v) refl

-- The email and the password that the creation of a tenant answers with pass the check of a login,
-- where its lookup runs: it goes on as the active admin of the new tenant, which is on trial;
-- where the verification of a password accepts the hash that was made of it, and the comparison of
-- emails, which is that of the database, accepts equal ones.
pub created_admin_logs_in :
    (w : World) (x : Context) (name : String) (days : ℤ) (db db' : Store) (r : CreateTenantResult)
    → x.crypto.same_email ≡ w.same_email
    → ((s : String) → w.same_email s s ≡ true)
    → ((p h : String) → w.hash_password p ≡ some h → x.crypto.verify_password p h ≡ some true)
    → x.fault get_user ≡ false
    → ops_create_tenant_call w name days db ≡ (db', ok r)
    → (u : AppUser) × ((login_body x r.admin_email r.admin_password db' ≡ login_as x u db')
        × ((u.role ≡ admin)
            × ((u.tenant_id ≡ r.tenant_id)
                × (get_tenant_status r.tenant_id db'.tenants ≡ some trial))))
unfolding ops_create_tenant_call
created_admin_logs_in w x name days db db' r same reflexive verifies reads h =
    elim (Result-cases (create_tenant_call w name days db)) [
      | inr (e, f) ↦ absurd (cc (ap (committed db) (sym f) ∙ h))
      | inl (v, f) ↦
          let call = ap (committed db) (sym f) ∙ h in
          let kept = ap (λ (y : Store × Result CreateError CreateTenantResult). y.0) call in
          let shown : v.1 ≡ r =
            cc (ap (λ (y : Store × Result CreateError CreateTenantResult). y.1) call) in
          let (n, c) = create_tenant_call-Created w name days db v f in
          let c' : Created w (trim_space name) n db (db', r) =
            subst (Created w (trim_space name) n db) (λ i. (kept i, shown i)) c in
          let u = new_admin w (admin_email w (trim_space name)) c'.hash in
          let stored =
            admin_stored w.same_email u (admin_email w (trim_space name)) db.users db'.users refl
              (reflexive _) c'.users in
          let found =
            subst (λ m. get_user_by_email x.crypto.same_email m db'.users ≡ some u) (sym c'.email)
              (subst (λ e. get_user_by_email e (admin_email w (trim_space name)) db'.users ≡ some u)
                (sym same) stored) in
          (
            u,
            (
              passes x r.admin_email r.admin_password c'.hash u db' reads found refl refl
                  (verifies _ _ c'.hashed),
              (
                refl,
                (
                  sym c'.tenant,
                  ap (λ k. get_tenant_status k db'.tenants) c'.tenant
                      ∙ tenant_stored (new_tenant w (trim_space name) n) db.tenants db'.tenants
                          c'.tenants,
                ),
              ),
            ),
          )
    ]
