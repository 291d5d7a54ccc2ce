-- ===== src/Queries/Staff.antt =====
-- apps/api/internal/db/staff.sql.go: the statements on workers, their invites and device tokens.
use sdano.Base.{
  ℕ, Bool, ◌&&◌, ◌||◌, Option, none, some, String, List, ◌==◌, str_eq, is_some, is_none,
  if◌then◌else◌, ltb, map,
}
use sdano.Base.Sorting.{sort_by}
use sdano.Base.Table.{select_one, select, update, insert}
use sdano.Store.{Store, AppUser, DeviceToken, WorkerInvite}
use sdano.Middleware.{is_worker}
use sdano.Queries.Objects.{or_else}
use sdano.Queries.Day.{first_row}

abbrev pub is_worker_of : ℕ → ℕ → AppUser → Bool
is_worker_of id tenant_id u = u.id == id && (u.tenant_id == tenant_id && is_worker u.role)

unfoldable pub get_worker : ℕ → ℕ → List AppUser → Option AppUser
unfolding select_one
get_worker id tenant_id = select_one (is_worker_of id tenant_id)

abbrev pub is_open_invite : ℕ → ℕ → WorkerInvite → Bool
is_open_invite tenant_id user_id i =
    i.tenant_id == tenant_id && (i.user_id == user_id && is_none i.used_at)

abbrev pub use_invite : ℕ → WorkerInvite → WorkerInvite
use_invite now i = record i { used_at = some now }

unfoldable pub void_worker_invites : ℕ → ℕ → ℕ → List WorkerInvite → List WorkerInvite
unfolding update
void_worker_invites now tenant_id user_id =
    update (is_open_invite tenant_id user_id) (use_invite now)

abbrev pub is_live_code : String → WorkerInvite → Bool
is_live_code code i = str_eq i.code code && is_none i.used_at

-- `none` is a unique violation: of the primary key, or of `worker_invite_active_code_idx`, which
-- holds each code once among the unused invites.
unfoldable pub insert_invite : WorkerInvite → List WorkerInvite → Option (List WorkerInvite)
unfolding select_one
insert_invite i t =
    if is_some (select_one (λ (x : WorkerInvite). x.id == i.id) t)
      || is_some (select_one (is_live_code i.code) t)
    then none
    else some (insert i t)

abbrev pub is_live_token : ℕ → ℕ → DeviceToken → Bool
is_live_token tenant_id user_id d =
    d.tenant_id == tenant_id && (d.user_id == user_id && is_none d.revoked_at)

unfoldable pub revoke_worker_device_tokens : ℕ → ℕ → ℕ → List DeviceToken → List DeviceToken
unfolding update
revoke_worker_device_tokens now tenant_id user_id =
    update (is_live_token tenant_id user_id) (λ d. record d { revoked_at = some now })

-- === workers ===

-- `none` is a violation of the primary key.
unfoldable pub insert_worker : AppUser → List AppUser → Option (List AppUser)
unfolding select_one
insert_worker u t =
    if is_some (select_one (λ (x : AppUser). x.id == u.id) t) then none else some (insert u t)

pub record UpdateWorkerParams : Type 0 where
  pub display_name : Option String
  pub is_active : Option Bool
  pub id : ℕ
  pub tenant_id : ℕ

abbrev pub changed : UpdateWorkerParams → AppUser → AppUser
changed a u = record u {
  display_name = or_else a.display_name u.display_name;
  is_active = or_else a.is_active u.is_active;
}

abbrev pub change_found :
    UpdateWorkerParams → List AppUser → Option AppUser → Option (List AppUser × AppUser)
change_found a t none = none
change_found a t (some u) = some (update (is_worker_of a.id a.tenant_id) (changed a) t, changed a u)

-- With the row that it returns; `none` is `pgx.ErrNoRows`.
unfoldable pub update_worker : UpdateWorkerParams → List AppUser → Option (List AppUser × AppUser)
unfolding select_one update
update_worker a t = change_found a t (select_one (is_worker_of a.id a.tenant_id) t)

pub record ListWorkersRow : Type 0 where
  pub id : ℕ
  pub display_name : String
  pub is_active : Bool
  pub created_at : ℕ
  pub pending_code : Option String
  pub pending_expires_at : Option ℕ

abbrev pub is_pending : ℕ → ℕ → WorkerInvite → Bool
is_pending now user_id i = i.user_id == user_id && (is_none i.used_at && ltb now i.expires_at)

-- `ORDER BY u.id, wi.expires_at DESC NULLS LAST, wi.id`.
abbrev pub expires_later : WorkerInvite → WorkerInvite → Bool
expires_later a b = ltb b.expires_at a.expires_at || (a.expires_at == b.expires_at && ltb a.id b.id)

-- The one that `DISTINCT ON (u.id)` keeps.
unfoldable pub pending_invite : ℕ → ℕ → List WorkerInvite → Option WorkerInvite
unfolding sort_by select
pending_invite now user_id t = first_row (sort_by expires_later (select (is_pending now user_id) t))

abbrev pub worker_row : AppUser → Option WorkerInvite → ListWorkersRow
worker_row u none = record {
  id = u.id;
  display_name = u.display_name;
  is_active = u.is_active;
  created_at = u.created_at;
  pending_code = none;
  pending_expires_at = none;
}
worker_row u (some i) = record {
  id = u.id;
  display_name = u.display_name;
  is_active = u.is_active;
  created_at = u.created_at;
  pending_code = some i.code;
  pending_expires_at = some i.expires_at;
}

unfoldable pub list_workers : (String → String → Bool) → ℕ → ℕ → Store → List ListWorkersRow
unfolding sort_by select pending_invite
list_workers collate now tenant_id db =
    sort_by (λ a b. collate a.display_name b.display_name)
      (map (λ (u : AppUser). worker_row u (pending_invite now u.id db.invites))
        (select (λ (u : AppUser). u.tenant_id == tenant_id && is_worker u.role) db.users))
