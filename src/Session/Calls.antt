-- ===== src/Session/Calls.antt =====
-- What each call of the auth service does to the refresh tokens (auth/service.go).
use sdano.Base.{
  ℕ, ◌≡◌, refl, some, List, String, Result, ok, err, Result-cases, Option-cases, inl, inr, arith,
}
use sdano.Store.{Store, RefreshToken}
use sdano.Queries.Auth.{
  GetRefreshTokenRow, GetActiveInviteRow, mark_refresh_token_used, revoke_user_refresh_tokens,
  insert_refresh_token,
}
use sdano.Session.{
  Context, AuthError, invalid_refresh, TokenPair, issue_refresh, new_refresh_row, login_body, login,
  logout, commit,
}
use sdano.Session.Rotation.{
  refresh_read, revoke_chain_tx, issue_pair_tx, rotate_tx, rotate, refresh,
}
use sdano.Session.Invites.{claim_read, claim_tx, claim, claim_worker}
use sdano.Session.Login.{login_body-Eligible, login_as-tokens}
use sdano.Session.Spent.{IsSpent, revoke_user-IsSpent, revoke-IsSpent, mark-IsSpent, insert-IsSpent}

issue_refresh-inserts :
    (x : Context) (tenant user : ℕ) (t t' : List RefreshToken) (plain : String)
    → issue_refresh x tenant user t ≡ ok (t', plain)
    → insert_refresh_token (new_refresh_row x tenant user plain) t ≡ some t'
unfolding issue_refresh
issue_refresh-inserts x tenant user t t' plain e = ground arith

pub issue_refresh-IsSpent :
    (x : Context) (tenant user id : ℕ) (t t' : List RefreshToken) (plain : String)
    → issue_refresh x tenant user t ≡ ok (t', plain)
    → IsSpent id t
    → IsSpent id t'
issue_refresh-IsSpent x tenant user id t t' plain e =
    insert-IsSpent id (new_refresh_row x tenant user plain) t t'
      (issue_refresh-inserts x tenant user t t' plain e)

-- === what each call does to the refresh tokens ===

issue_pair_tx-tokens :
    (x : Context) (r : GetRefreshTokenRow) (marked : List RefreshToken) (db db' : Store)
    (res : Result AuthError TokenPair)
    → issue_pair_tx x r marked db ≡ ok (db', res)
    → (plain : String) × (issue_refresh x r.tenant_id r.user_id marked
        ≡ ok (db'.refresh_tokens, plain))
unfolding issue_pair_tx
issue_pair_tx-tokens x r marked db db' res h =
    elim (Result-cases (issue_refresh x r.tenant_id r.user_id marked)) [
      | inr (e, f) ↦ absurd (ground arith)
      | inl ((t, plain), f) ↦ (plain, ground arith)
    ]

revoke_chain_tx-tokens :
    (x : Context) (user : ℕ) (db db' : Store) (res : Result AuthError TokenPair)
    → revoke_chain_tx x user db ≡ ok (db', res)
    → (db'.refresh_tokens ≡ revoke_user_refresh_tokens x.now user db.refresh_tokens)
      × (res ≡ err invalid_refresh)
unfolding revoke_chain_tx
revoke_chain_tx-tokens x user db db' res h = ground arith

-- A committed rotation either revoked the chain, or marked its token and issued a pair.
pub data Rotated (x : Context) (r : GetRefreshTokenRow) (db db' : Store)
    (res : Result AuthError TokenPair) : Type 0 where
  revoked :
      db'.refresh_tokens ≡ revoke_user_refresh_tokens x.now r.user_id db.refresh_tokens
      → res ≡ err invalid_refresh
      → Rotated x r db db' res
  issued :
      (marked : List RefreshToken) (plain : String)
      → mark_refresh_token_used x.now r.id db.refresh_tokens ≡ some marked
      → issue_refresh x r.tenant_id r.user_id marked ≡ ok (db'.refresh_tokens, plain)
      → Rotated x r db db' res

pub rotate_tx-Rotated :
    (x : Context) (r : GetRefreshTokenRow) (db db' : Store) (res : Result AuthError TokenPair)
    → rotate_tx x r db ≡ ok (db', res)
    → Rotated x r db db' res
unfolding rotate_tx
rotate_tx-Rotated x r db db' res h = elim (Option-cases r.used_at) [
  | inr (t, u) ↦
      let (a, b) = revoke_chain_tx-tokens x r.user_id db db' res (ground arith) in revoked a b
  | inl u ↦ elim (Option-cases (mark_refresh_token_used x.now r.id db.refresh_tokens)) [
    | inl m ↦
        let (a, b) = revoke_chain_tx-tokens x r.user_id db db' res (ground arith) in revoked a b
    | inr (marked, m) ↦
        let (plain, i) = issue_pair_tx-tokens x r marked db db' res (ground arith) in
        issued marked plain m i
  ]
]

pub rotate-IsSpent :
    (x : Context) (r : GetRefreshTokenRow) (id : ℕ) (db : Store)
    → IsSpent id db.refresh_tokens
    → IsSpent id (rotate x r db).0.refresh_tokens
unfolding rotate
rotate-IsSpent x r id db h = go (rotate_tx x r db) refl
  where
    moved :
        (db' : Store) (res : Result AuthError TokenPair)
        → Rotated x r db db' res
        → IsSpent id db'.refresh_tokens
    moved db' res (revoked a b) = rw a (revoke_user-IsSpent id x.now r.user_id _ h)
    moved db' res (issued t plain m i) =
        issue_refresh-IsSpent x r.tenant_id r.user_id id t _ plain i
          (mark-IsSpent id x.now r.id db.refresh_tokens t m h)

    go :
        (m : Result AuthError (Store × Result AuthError TokenPair))
        → rotate_tx x r db ≡ m
        → IsSpent id (rotate x r db).0.refresh_tokens
    go (err e) f = rw (f, rotate) h
    go (ok (db', res)) f = rw (f, rotate) (moved db' res (rotate_tx-Rotated x r db db' res f))

pub login-IsSpent :
    (x : Context) (email password : String) (id : ℕ) (db : Store)
    → IsSpent id db.refresh_tokens
    → IsSpent id (login x email password db).0.refresh_tokens
unfolding login
login-IsSpent x email password id db h = elim (Result-cases (login_body x email password db)) [
  | inr (e, f) ↦ rw (f, login, commit) h
  | inl ((db', res), f) ↦
      let (u, able, g) = login_body-Eligible x email password db db' res f in
      let (plain, i) = login_as-tokens x email password db u db' res g in
      rw (f, login, commit)
        (issue_refresh-IsSpent x u.tenant_id u.id id db.refresh_tokens _ plain i h)
]

pub logout-IsSpent :
    (x : Context) (plain : String) (id : ℕ) (db : Store)
    → IsSpent id db.refresh_tokens
    → IsSpent id (logout x plain db).0.refresh_tokens
unfolding logout
logout-IsSpent x plain id db h =
    ground
      (arith, h, revoke-IsSpent id x.now (x.crypto.hash_opaque_token plain) db.refresh_tokens h)

pub claim-tokens :
    (x : Context) (inv : GetActiveInviteRow) (db : Store)
    → (claim x inv db).0.refresh_tokens ≡ db.refresh_tokens
unfolding claim claim_tx
claim-tokens x inv db = ground arith

pub refresh-IsSpent :
    (x : Context) (plain : String) (id : ℕ) (db : Store)
    → IsSpent id db.refresh_tokens
    → IsSpent id (refresh x plain db).0.refresh_tokens
unfolding refresh
refresh-IsSpent x plain id db h = elim (Result-cases (refresh_read x plain db)) [
  | inl (r, f) ↦ rw (f, refresh) (rotate-IsSpent x r id db h)
  | inr (e, f) ↦ rw (f, refresh) h
]

pub claim_worker-tokens :
    (x : Context) (code : String) (db : Store)
    → (claim_worker x code db).0.refresh_tokens ≡ db.refresh_tokens
unfolding claim_worker
claim_worker-tokens x code db = elim (Result-cases (claim_read x code db)) [
  | inl (inv, f) ↦ rw (f, claim_worker) (claim-tokens x inv db)
  | inr (e, f) ↦ rw (f, claim_worker) refl
]
