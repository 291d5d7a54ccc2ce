-- ===== src/Session/Login.antt =====
-- Who is logged in (`Login` of auth/service.go).
use sdano.Base.{
  true, false, ◌≡◌, ◌≢◌, ◌⊎◌, none, some, String, ok, err, Result-cases, Option-cases, Bool-cases,
  inl, inr, arith,
}
use sdano.Store.{Store, AppUser, TenantStatus}
use sdano.Queries.Auth.{get_user_by_email, get_tenant_status}
use sdano.Session.{
  Context, invalid_credentials, get_user, LoginResult, assert_tenant_not_archived, issue_refresh,
  login_as, login_body, login, is_archived,
}

-- The account that a successful login is for.
pub record Eligible (x : Context) (email password : String) (db : Store) (u : AppUser)
    : Type 0 where
  pub hash : String
  pub found : get_user_by_email x.crypto.same_email email db.users ≡ some u
  pub enabled : u.is_active ≡ true
  pub hashed : u.password_hash ≡ some hash
  pub verified : x.crypto.verify_password password hash ≡ some true

module _ (x : Context) (email password : String) (db : Store) where
  pub login_body-Eligible :
      (db' : Store) (res : LoginResult)
      → login_body x email password db ≡ ok (db', res)
      → (u : AppUser) × Eligible x email password db u × (login_as x u db ≡ ok (db', res))
  unfolding login_body
  login_body-Eligible db' res h =
      elim (Option-cases (get_user_by_email x.crypto.same_email email db.users)) [
        | inl n ↦ absurd (ground arith)
        | inr (u, f) ↦ elim (Option-cases u.password_hash) [
          | inl n ↦ absurd (ground arith)
          | inr (hash, p) ↦ (
            u,
            record {
              hash = hash;
              found = f;
              enabled = ground arith;
              hashed = p;
              verified = ground arith;
            },
            ground arith,
          )
        ]
      ]

  login_as-status :
      (u : AppUser) (db' : Store) (res : LoginResult)
      → login_as x u db ≡ ok (db', res)
      → (s : TenantStatus) × (get_tenant_status u.tenant_id db.tenants ≡ some s)
        × (is_archived s ≡ false)
        × (res.user.id ≡ u.id)
        × (res.user.tenant_id ≡ u.tenant_id)
        × (res.user.role ≡ u.role)
  unfolding login_as assert_tenant_not_archived
  login_as-status u db' res h = elim (Option-cases (get_tenant_status u.tenant_id db.tenants)) [
    | inl n ↦ absurd (ground arith)
    | inr (s, f) ↦ elim (Result-cases (issue_refresh x u.tenant_id u.id db.refresh_tokens)) [
      | inr (e, g) ↦ absurd (ground arith)
      | inl ((t, plain), g) ↦ (s, f, ground arith, ground arith, ground arith, ground arith)
    ]
  ]

  pub login_as-tokens :
      (u : AppUser) (db' : Store) (res : LoginResult)
      → login_as x u db ≡ ok (db', res)
      → (plain : String) × (issue_refresh x u.tenant_id u.id db.refresh_tokens
          ≡ ok (db'.refresh_tokens, plain))
  unfolding login_as
  login_as-tokens u db' res h =
      elim (Result-cases (issue_refresh x u.tenant_id u.id db.refresh_tokens)) [
        | inr (e, g) ↦ absurd (ground arith)
        | inl ((t, plain), g) ↦ (plain, ground arith)
      ]

  login-commits :
      (res : LoginResult)
      → (login x email password db).1 ≡ ok res
      → login_body x email password db ≡ ok ((login x email password db).0, res)
  unfolding login
  login-commits res h = ground arith

  -- A login succeeds only for an active account with a password hash that verifies, of a tenant
  -- that is not archived, and it is that account's identity that is returned.
  pub login_sound :
      (res : LoginResult)
      → (login x email password db).1 ≡ ok res
      → (u : AppUser) × Eligible x email password db u
        × (s : TenantStatus) × (get_tenant_status u.tenant_id db.tenants ≡ some s)
        × (is_archived s ≡ false)
        × (res.user.id ≡ u.id)
        × (res.user.tenant_id ≡ u.tenant_id)
        × (res.user.role ≡ u.role)
  login_sound res h =
      let (u, able, rest) = login_body-Eligible _ res (login-commits res h) in
      let (s, f, a, b, c, d) = login_as-status u _ res rest in (u, able, s, f, a, b, c, d)

  -- Where the lookup and the verification run, an unknown email, an inactive account, an account
  -- without a password and a wrong password all get the same answer, and nothing is stored.
  login_refuses :
      x.fault get_user ≡ false
      → ((hash : String) → x.crypto.verify_password password hash ≢ none)
      → ((u : AppUser) → ¬ Eligible x email password db u)
      → login x email password db ≡ (db, err invalid_credentials)
  unfolding login login_body
  login_refuses f total never =
      elim (Option-cases (get_user_by_email x.crypto.same_email email db.users)) [
        | inl n ↦ elim (verified x.crypto.dummy_password_hash) [
          | inl e ↦ ground arith
          | inr e ↦ ground arith
        ]
        | inr (u, g) ↦ elim (Option-cases u.password_hash) [
          | inl n ↦ elim (verified x.crypto.dummy_password_hash) [
            | inl e ↦ ground arith
            | inr e ↦ ground arith
          ]
          | inr (hash, p) ↦ elim (Bool-cases u.is_active) [
            | inr a ↦ elim (verified x.crypto.dummy_password_hash) [
              | inl e ↦ ground arith
              | inr e ↦ ground arith
            ]
            | inl a ↦ elim (verified hash) [
              | inl e ↦ absurd (
                  never u
                    (record { hash = hash; found = g; enabled = a; hashed = p; verified = e }))
              | inr e ↦ ground arith
            ]
          ]
        ]
      ]
    where
      verified :
          (hash : String)
          → (x.crypto.verify_password password hash ≡ some true)
            ⊎ (x.crypto.verify_password password hash ≡ some false)
      verified hash = ground (arith, total hash)
