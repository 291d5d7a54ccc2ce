-- ===== src/Session.antt =====
-- apps/api/internal/auth/service.go, principal.go and the constants of token.go: login, token
-- rotation, logout and the claim of a worker's invite.
--
-- The cryptography (argon2id, SHA-256, the JWT library, `crypto/rand`) is the record `Crypto` and
-- the arguments `plaintext`; `fault` says which statements the database refuses. A service call
-- gives the database after it and its result. `Refresh` and `ClaimWorker` read first and then run
-- a transaction on the row that they read, which may be stale by then: `rotate` and `claim` are
-- those transactions.
pub mod Rotation
pub mod Invites
pub mod Spent
pub mod Calls
pub mod Login
pub mod Reuse
pub mod Claim
pub mod Device
use sdano.Base.{
  ℕ, ◌+◌, ◌*◌, Bool, true, false, ◌&&◌, ◌||◌, not, Option, none, some, String, List, ◌==◌, ltb,
  if◌then◌else◌, is_some, Result, ok, err, ◌>>=◌, ◌>>◌, reject_if, or_err,
}
use sdano.Store.{
  Store, TenantStatus, active, archived, suspended, trial, UserRole, AppUser, RefreshToken,
  DeviceToken, WorkerInvite,
}
use sdano.Queries.Auth.{
  get_user_by_email, get_tenant_status, GetRefreshTokenRow, get_refresh_token, insert_refresh_token,
  mark_refresh_token_used, revoke_refresh_token, revoke_user_refresh_tokens, GetActiveInviteRow,
  get_active_invite, claim_invite, insert_device_token,
}

pub record Principal : Type 0 where
  pub user_id : ℕ
  pub tenant_id : ℕ
  pub role : UserRole

-- `VerifyPassword` and `IssueAccessToken` may fail (`none`).
pub record Crypto : Type 0 where
  pub hash_opaque_token : String → String
  pub verify_password : String → String → Option Bool
  pub issue_access_token : Principal → ℕ → ℕ → Option String
  pub dummy_password_hash : String
  pub same_email : String → String → Bool

-- Durations in nanoseconds, as `time.Duration` counts them.
abbrev pub minute : ℕ
minute = 60 * 1_000_000_000

abbrev pub hour : ℕ
hour = 60 * minute

abbrev pub access_ttl : ℕ
access_ttl = 15 * minute

abbrev pub refresh_ttl : ℕ
refresh_ttl = 30 * (24 * hour)

pub data AuthStatement : Type 0 where
  get_user get_status get_refresh begin_tx lock_user revoke_chain mark_used : AuthStatement
  insert_refresh commit_tx revoke_token get_invite mark_claimed insert_device : AuthStatement

pub data AuthError : Type 0 where
  invalid_credentials invalid_refresh invalid_invite tenant_archived : AuthError
  verify_failed sign_failed random_failed : AuthError
  failed_statement : AuthStatement → AuthError

pub record UserInfo : Type 0 where
  pub id : ℕ
  pub tenant_id : ℕ
  pub display_name : String
  pub email : Option String
  pub role : UserRole

pub record LoginResult : Type 0 where
  pub access_token : String
  pub refresh_token : String
  pub user : UserInfo

pub record TokenPair : Type 0 where
  pub access_token : String
  pub refresh_token : String

pub record ClaimResult : Type 0 where
  pub device_token : String
  pub worker_id : ℕ
  pub worker_name : String

abbrev pub is_archived : TenantStatus → Bool
is_archived archived = true
is_archived _ = false

-- What one call meets: the failing statements, the clock, the random token (`none` where the
-- generator fails) and the id that the database generates.
pub record Context : Type 0 where
  pub crypto : Crypto
  pub fault : AuthStatement → Bool
  pub now : ℕ
  pub plaintext : Option String
  pub new_id : ℕ

-- A statement that fails ends the call.
abbrev pub run_statement : Context → AuthStatement → Result AuthError (Unit {0})
run_statement x s = reject_if (x.fault s) (failed_statement s)

unfoldable pub assert_tenant_not_archived : Context → ℕ → Store → Result AuthError (Unit {0})
unfolding get_tenant_status
assert_tenant_not_archived x tenant_id db = do
  run_statement x get_status
  status ← or_err (get_tenant_status tenant_id db.tenants) (failed_statement get_status)
  reject_if (is_archived status) tenant_archived

abbrev pub new_refresh_row : Context → ℕ → ℕ → String → RefreshToken
new_refresh_row x tenant user plain = record {
  id = x.new_id;
  tenant_id = tenant;
  user_id = user;
  token_hash = x.crypto.hash_opaque_token plain;
  expires_at = x.now + refresh_ttl;
  used_at = none;
  revoked_at = none;
}

-- A new refresh token of the user, with its plaintext.
unfoldable pub issue_refresh :
    Context → ℕ → ℕ → List RefreshToken → Result AuthError (List RefreshToken × String)
unfolding insert_refresh_token
issue_refresh x tenant user t = do
  plain ← or_err x.plaintext random_failed
  run_statement x insert_refresh
  t' ←
      or_err (insert_refresh_token (new_refresh_row x tenant user plain) t)
        (failed_statement insert_refresh)
  ok (t', plain)

-- === Login ===

abbrev pub principal_of : AppUser → Principal
principal_of u = record { user_id = u.id; tenant_id = u.tenant_id; role = u.role }

-- `eligible`, and the hash that the password is verified against.
abbrev pub login_hash : Crypto → Option AppUser → Bool × String
login_hash k none = (false, k.dummy_password_hash)
login_hash k (some u) = elim u.password_hash [
  | none ↦ (false, k.dummy_password_hash)
  | some h ↦ if u.is_active then (true, h) else (false, k.dummy_password_hash)
]

-- Past the check of the password.
unfoldable pub login_as : Context → AppUser → Store → Result AuthError (Store × LoginResult)
login_as x u db = do
  assert_tenant_not_archived x u.tenant_id db
  access ← or_err (x.crypto.issue_access_token (principal_of u) x.now access_ttl) sign_failed
  (tokens, refresh) ← issue_refresh x u.tenant_id u.id db.refresh_tokens
  let info : UserInfo = record {
    id = u.id;
    tenant_id = u.tenant_id;
    display_name = u.display_name;
    email = u.email;
    role = u.role;
  }
  ok (
    record db { refresh_tokens = tokens },
    record { access_token = access; refresh_token = refresh; user = info },
  )

unfoldable pub login_body :
    Context → String → String → Store → Result AuthError (Store × LoginResult)
login_body x email password db = do
  run_statement x get_user
  let u = get_user_by_email x.crypto.same_email email db.users
  let (eligible, hash) = login_hash x.crypto u
  verified ← or_err (x.crypto.verify_password password hash) verify_failed
  reject_if (not eligible || not verified) invalid_credentials
  u' ← or_err u invalid_credentials
  login_as x u' db

-- A call that fails leaves the database as it is: single statements, or a rolled back transaction.
abbrev pub commit : {A : Type 0} → Store → Result AuthError (Store × A) → Store × Result AuthError A
commit db (ok (db', a)) = (db', ok a)
commit db (err e) = (db, err e)

unfoldable pub login : Context → String → String → Store → Store × Result AuthError LoginResult
login x email password db = commit db (login_body x email password db)

-- === Logout ===

unfoldable pub logout : Context → String → Store → Store × Result AuthError (Unit {0})
unfolding revoke_refresh_token
logout x refresh_plaintext db = commit db (do
  run_statement x revoke_token
  ok (
    record db {
      refresh_tokens =
          revoke_refresh_token x.now (x.crypto.hash_opaque_token refresh_plaintext)
            db.refresh_tokens;
    },
    tt,
  ))
