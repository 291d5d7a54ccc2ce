-- ===== src/Middleware.antt =====
-- apps/api/internal/auth/middleware.go, `ParseAccessToken` of token.go and the order of the
-- middlewares in app/app.go: what a request must bring to reach its handler. The JWT library, the
-- UUID parser and SHA-256 are the record `TokenLibrary`; the role in a signed token is one of the
-- three constants of principal.go, as `IssueAccessToken` writes it.
pub mod Gate
use sdano.Base.{
  ℕ, ◌+◌, Bool, true, false, ◌&&◌, ◌||◌, not, Option, none, some, String, List, [], ◌∷◌, ◌==◌, ltb,
  length, if◌then◌else◌, Result, ok, err, ◌>>=◌, ◌>>◌, reject_if, or_err,
}
use sdano.Base.Bytes.{Bytes, codes, bytes_eq, has_prefix, take, drop, count, equal_fold}
use sdano.Store.{
  Store, TenantStatus, active, archived, suspended, trial, UserRole, admin, manager, worker,
}
use sdano.Queries.Auth.{get_tenant_status, GetDeviceSessionRow, get_device_session}
use sdano.Session.{Principal}
use sdano.RateLimit.{Limit, RateLimiter, limit_by_ip, limit_by_principal}

pub record AccessClaims : Type 0 where
  pub subject : Bytes
  pub tenant : Bytes
  pub role : UserRole

pub record TokenLibrary : Type 0 where
  pub parse_with_claims : Bytes → Option AccessClaims
  pub parse_uuid : Bytes → Option ℕ
  pub hash_opaque_token : Bytes → String

-- The statements that the database refuses.
pub record Faults : Type 0 where
  pub device_session : Bool
  pub tenant_status : Bool

-- What the middlewares read of a request: the operation's path, method and metadata, and the
-- `Authorization` header.
pub record Request : Type 0 where
  pub path : Bytes
  pub method : Bytes
  pub is_public : Bool
  pub suspended_writable : Bool
  pub authorization : Bytes

-- The answers other than the handler's, by their details.
pub data Problem : Type 0 where
  missing_bearer invalid_token no_principal unknown_tenant tenant_archived : Problem
  staff_role_required worker_role_required no_role_gate tenant_suspended : Problem
  status_unverified rate_limited : Problem

unfoldable pub status_code : Problem → ℕ
status_code missing_bearer = 401
status_code invalid_token = 401
status_code no_principal = 401
status_code unknown_tenant = 401
status_code tenant_archived = 401
status_code staff_role_required = 403
status_code worker_role_required = 403
status_code no_role_gate = 403
status_code tenant_suspended = 403
status_code status_unverified = 500
status_code rate_limited = 429

abbrev pub bearer_prefix : Bytes
bearer_prefix = codes "Bearer "

unfoldable pub bearer : Bytes → Bytes
bearer h =
    if ltb (length bearer_prefix) (length h)
      && equal_fold (take (length bearer_prefix) h) bearer_prefix
    then drop (length bearer_prefix) h
    else []

-- Neither `GET` nor `HEAD` nor `OPTIONS`.
unfoldable pub is_mutation : Bytes → Bool
is_mutation m =
    not (bytes_eq m (codes "GET"))
    && (not (bytes_eq m (codes "HEAD")) && not (bytes_eq m (codes "OPTIONS")))

unfoldable pub parse_access_token : TokenLibrary → Bytes → Option Principal
parse_access_token lib raw = elim (lib.parse_with_claims raw) [
  | none ↦ none
  | some claims ↦ elim (lib.parse_uuid claims.subject) [
    | none ↦ none
    | some uid ↦ elim (lib.parse_uuid claims.tenant) [
      | none ↦ none
      | some tid ↦ some (record { user_id = uid; tenant_id = tid; role = claims.role })
    ]
  ]
]

abbrev pub is_jwt : Bytes → Bool
is_jwt raw = count 46 raw == 2

abbrev pub session_principal : GetDeviceSessionRow → Principal
session_principal s = record { user_id = s.user_id; tenant_id = s.tenant_id; role = s.role }

unfoldable pub device_principal : TokenLibrary → Faults → Bytes → Store → Option Principal
device_principal lib fault raw db =
    if fault.device_session
    then none
    else elim (get_device_session (lib.hash_opaque_token raw) db) [
      | none ↦ none
      | some s ↦ some (session_principal s)
    ]

unfoldable pub resolve : TokenLibrary → Faults → Bytes → Store → Option Principal
resolve lib fault raw db =
    if is_jwt raw then parse_access_token lib raw else device_principal lib fault raw db

-- The principal that the context carries afterwards; a public operation has none.
unfoldable pub authenticate :
    TokenLibrary → Faults → Request → Store → Result Problem (Option Principal)
unfolding resolve
authenticate lib fault req db =
    if req.is_public
    then ok none
    else if length (bearer req.authorization) == 0
    then err missing_bearer
    else elim (resolve lib fault (bearer req.authorization) db) [
      | none ↦ err invalid_token
      | some p ↦ ok (some p)
    ]

abbrev pub staff_prefix : Bytes
staff_prefix = codes "/api/v1/staff/"

abbrev pub worker_prefix : Bytes
worker_prefix = codes "/api/v1/worker/"

abbrev pub is_staff : UserRole → Bool
is_staff worker = false
is_staff _ = true

abbrev pub is_worker : UserRole → Bool
is_worker worker = true
is_worker _ = false

unfoldable pub check_role : Bytes → UserRole → Result Problem (Unit {0})
check_role path role =
    if has_prefix path staff_prefix
    then reject_if (not (is_staff role)) staff_role_required
    else if has_prefix path worker_prefix
    then reject_if (not (is_worker role)) worker_role_required
    else err no_role_gate

unfoldable pub check_status : Request → TenantStatus → Result Problem (Unit {0})
check_status req archived = err tenant_archived
check_status req suspended =
    reject_if (is_mutation req.method && not req.suspended_writable) tenant_suspended
check_status req active = ok tt
check_status req trial = ok tt

abbrev pub authorize_principal : Faults → Request → Principal → Store → Result Problem (Unit {0})
authorize_principal fault req p db = do
  check_role req.path p.role
  reject_if fault.tenant_status status_unverified
  status ← or_err (get_tenant_status p.tenant_id db.tenants) unknown_tenant
  check_status req status

unfoldable pub authorize : Faults → Request → Option Principal → Store → Result Problem (Unit {0})
authorize fault req none db = if req.is_public then ok tt else err no_principal
authorize fault req (some p) db =
    if req.is_public then ok tt else authorize_principal fault req p db

-- `api.UseMiddleware(rl.LimitByIP, authn.Authenticate, rl.LimitByPrincipal, authn.Authorize)`:
-- the limiter afterwards, and the principal with which the handler runs, or the answer.
module _ {Bucket : Type 0} (new_limiter : Limit → Bucket) (take_token : Bucket → ℕ → Bucket × Bool)
    (uuid_string : ℕ → Bytes) (lib : TokenLibrary) where
  unfoldable pub admit_principal :
      Faults
      → Request
      → ℕ
      → Store
      → Option Principal
      → RateLimiter Bucket
      → RateLimiter Bucket × Result Problem (Option Principal)
  admit_principal fault req now db p rl =
      let (rl', admitted) =
        limit_by_principal new_limiter take_token uuid_string req.is_public p now rl in
      if admitted then (rl', authorize fault req p db >>= λ _. ok p) else (rl', err rate_limited)

  unfoldable pub serve :
      Faults
      → Request
      → Bytes
      → ℕ
      → Store
      → RateLimiter Bucket
      → RateLimiter Bucket × Result Problem (Option Principal)
  serve fault req ip now db rl =
      let (rl', admitted) = limit_by_ip new_limiter take_token req.path ip now rl in
      if admitted
      then elim (authenticate lib fault req db) [
        | err e ↦ (rl', err e)
        | ok p ↦ admit_principal fault req now db p rl'
      ]
      else (rl', err rate_limited)
