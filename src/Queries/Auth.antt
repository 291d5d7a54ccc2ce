-- ===== src/Queries/Auth.antt =====
-- apps/api/internal/db/auth.sql.go: the statements of the auth service and of the middleware.
-- `now` is the clock of the database (`now()`), and a generated id is an argument.
use sdano.Base.{
  ℕ, Bool, false, ◌&&◌, ◌||◌, Option, none, some, String, List, ◌==◌, ltb, str_eq, if◌then◌else◌,
  is_some, is_none,
}
use sdano.Base.Table.{select_one, update, insert}
use sdano.Store.{
  Store, TenantStatus, Tenant, UserRole, AppUser, RefreshToken, DeviceToken, WorkerInvite,
}

-- `email = $1` is false where the column is NULL. The column is `citext`: `same` compares as it
-- does.
abbrev pub email_is : (String → String → Bool) → String → Option String → Bool
email_is same email none = false
email_is same email (some e) = same e email

unfoldable pub get_user_by_email : (String → String → Bool) → String → List AppUser → Option AppUser
unfolding select_one
get_user_by_email same email = select_one (λ u. email_is same email u.email)

unfoldable pub get_tenant : ℕ → List Tenant → Option Tenant
unfolding select_one
get_tenant id = select_one (λ t. t.id == id)

unfoldable pub get_tenant_status : ℕ → List Tenant → Option TenantStatus
unfolding get_tenant
get_tenant_status id t = elim (get_tenant id t) [ none ↦ none | some r ↦ some r.status ]

-- === refresh tokens ===

pub record GetRefreshTokenRow : Type 0 where
  pub id : ℕ
  pub tenant_id : ℕ
  pub user_id : ℕ
  pub expires_at : ℕ
  pub used_at : Option ℕ
  pub revoked_at : Option ℕ
  pub role : UserRole
  pub is_active : Bool

abbrev pub refresh_row : RefreshToken → AppUser → GetRefreshTokenRow
refresh_row r u = record {
  id = r.id;
  tenant_id = r.tenant_id;
  user_id = r.user_id;
  expires_at = r.expires_at;
  used_at = r.used_at;
  revoked_at = r.revoked_at;
  role = u.role;
  is_active = u.is_active;
}

-- `JOIN app_user u ON u.id = r.user_id`.
unfoldable pub get_refresh_token : String → Store → Option GetRefreshTokenRow
unfolding select_one
get_refresh_token hash db =
    elim (select_one (λ (r : RefreshToken). str_eq r.token_hash hash) db.refresh_tokens) [
      | none ↦ none
      | some r ↦ elim (select_one (λ (u : AppUser). u.id == r.user_id) db.users) [
        | none ↦ none
        | some u ↦ some (refresh_row r u)
      ]
    ]

-- `id` is the primary key and `token_hash` is UNIQUE: the insertion of a known one fails.
unfoldable pub insert_refresh_token : RefreshToken → List RefreshToken → Option (List RefreshToken)
unfolding select_one
insert_refresh_token r t =
    if is_some (select_one (λ (x : RefreshToken). x.id == r.id) t)
      || is_some (select_one (λ (x : RefreshToken). str_eq x.token_hash r.token_hash) t)
    then none
    else some (insert r t)

-- `WHERE id = $1 AND used_at IS NULL AND revoked_at IS NULL`.
abbrev pub is_markable : ℕ → RefreshToken → Bool
is_markable id r = r.id == id && (is_none r.used_at && is_none r.revoked_at)

-- `none` is `pgx.ErrNoRows`.
unfoldable pub mark_refresh_token_used : ℕ → ℕ → List RefreshToken → Option (List RefreshToken)
unfolding select_one update
mark_refresh_token_used now id t =
    if is_some (select_one (is_markable id) t)
    then some (update (is_markable id) (λ r. record r { used_at = some now }) t)
    else none

unfoldable pub revoke_refresh_token : ℕ → String → List RefreshToken → List RefreshToken
unfolding update
revoke_refresh_token now hash =
    update (λ r. str_eq r.token_hash hash && is_none r.revoked_at)
      (λ r. record r { revoked_at = some now })

unfoldable pub revoke_user_refresh_tokens : ℕ → ℕ → List RefreshToken → List RefreshToken
unfolding update
revoke_user_refresh_tokens now user_id =
    update (λ r. r.user_id == user_id && is_none r.revoked_at)
      (λ r. record r { revoked_at = some now })

-- === invites and device tokens ===

pub record GetActiveInviteRow : Type 0 where
  pub id : ℕ
  pub tenant_id : ℕ
  pub user_id : ℕ
  pub display_name : String

abbrev pub is_active_user : ℕ → AppUser → Bool
is_active_user id u = u.id == id && u.is_active

abbrev pub is_active_invite : ℕ → String → WorkerInvite → Bool
is_active_invite now code i = str_eq i.code code && (is_none i.used_at && ltb now i.expires_at)

-- The partial unique index on `code` leaves at most one unused invite to a code.
unfoldable pub get_active_invite : ℕ → String → Store → Option GetActiveInviteRow
unfolding select_one
get_active_invite now code db = elim (select_one (is_active_invite now code) db.invites) [
  | none ↦ none
  | some i ↦ elim (select_one (is_active_user i.user_id) db.users) [
    | none ↦ none
    | some u ↦ some (record {
      id = i.id;
      tenant_id = i.tenant_id;
      user_id = i.user_id;
      display_name = u.display_name;
    })
  ]
]

abbrev pub is_claimable : ℕ → WorkerInvite → Bool
is_claimable id i = i.id == id && is_none i.used_at

unfoldable pub claim_invite : ℕ → ℕ → List WorkerInvite → Option (List WorkerInvite)
unfolding select_one update
claim_invite now id t =
    if is_some (select_one (is_claimable id) t)
    then some (update (is_claimable id) (λ i. record i { used_at = some now }) t)
    else none

-- The primary key and the unique index `device_token_hash_idx` refuse a known id or hash.
unfoldable pub insert_device_token : DeviceToken → List DeviceToken → Option (List DeviceToken)
unfolding select_one
insert_device_token r t =
    if is_some (select_one (λ (x : DeviceToken). x.id == r.id) t)
      || is_some (select_one (λ (x : DeviceToken). str_eq x.token_hash r.token_hash) t)
    then none
    else some (insert r t)

pub record GetDeviceSessionRow : Type 0 where
  pub user_id : ℕ
  pub tenant_id : ℕ
  pub role : UserRole

unfoldable pub get_device_session : String → Store → Option GetDeviceSessionRow
unfolding select_one
get_device_session hash db =
    elim (select_one (λ (t : DeviceToken). str_eq t.token_hash hash && is_none t.revoked_at)
      db.device_tokens) [
        | none ↦ none
        | some t ↦ elim (select_one (is_active_user t.user_id) db.users) [
          | none ↦ none
          | some u ↦ some (record { user_id = u.id; tenant_id = u.tenant_id; role = u.role })
        ]
      ]
