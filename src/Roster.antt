-- ===== src/Roster.antt =====
-- apps/api/internal/roster: the invites of a worker (`CreateInvite` of invite.go) and the handler
-- that issues a fresh one (`reinviteStaffWorker` of http.go). The random codes and the generated
-- ids come with the attempt: `draw` is the code of an attempt (`none` where the generator fails).
pub mod Invites
pub mod Revocation
pub mod Workers
pub mod Claimed
use sdano.Base.{
  ℕ, zero, suc, ◌+◌, ◌*◌, Bool, true, false, Option, none, some, String, List, if◌then◌else◌,
  Result, ok, err, ◌>>=◌, ◌>>◌, reject_if, or_err,
}
use sdano.Store.{Store, AppUser, WorkerInvite}
use sdano.Queries.Staff.{
  get_worker, void_worker_invites, insert_invite, revoke_worker_device_tokens,
}
use sdano.Session.{hour}

pub data RosterStatement : Type 0 where
  load_worker void_invites revoke_tokens list_rows insert_row update_row : RosterStatement
  put_invite : ℕ → RosterStatement

pub data RosterError : Type 0 where
  invalid_uuid worker_not_found random_failed no_unique_code : RosterError
  failed_statement : RosterStatement → RosterError

-- What one call meets; an attempt is named by the number of attempts left after it.
pub record World : Type 0 where
  pub fault : RosterStatement → Bool
  pub now : ℕ
  pub parse_uuid : String → Option ℕ
  pub draw : ℕ → Option String
  pub new_id : ℕ → ℕ
  pub new_user_id : ℕ
  pub collate : String → String → Bool

abbrev pub invite_ttl : ℕ
invite_ttl = 72 * hour

abbrev pub attempts : ℕ
attempts = 5

abbrev pub new_invite : World → ℕ → ℕ → ℕ → String → WorkerInvite
new_invite w left tenant_id user_id code = record {
  id = w.new_id left;
  tenant_id = tenant_id;
  user_id = user_id;
  code = code;
  expires_at = w.now + invite_ttl;
  used_at = none;
}

-- The loop: the invites afterwards and the code, or the error; a violation is `none` of the
-- insertion.
unfoldable pub issue_code :
    World → ℕ → ℕ → ℕ → List WorkerInvite → Result RosterError (List WorkerInvite × String)
issue_code w zero tenant_id user_id t = err no_unique_code
issue_code w (suc left) tenant_id user_id t =
    let again = issue_code w left tenant_id user_id t in
    elim (w.draw left) [
      | none ↦ err random_failed
      | some code ↦
          if w.fault (put_invite left)
          then err (failed_statement (put_invite left))
          else elim (insert_invite (new_invite w left tenant_id user_id code) t) [
            | none ↦ again
            | some t' ↦ ok (t', code)
          ]
    ]

-- The database afterwards, with the code and its expiry. The voided invites stay voided where the
-- loop fails.
abbrev pub issued :
    World
    → Store
    → Result RosterError (List WorkerInvite × String)
    → Store × Result RosterError (String × ℕ)
issued w db (err e) = (db, err e)
issued w db (ok (t, code)) = (record db { invites = t }, ok (code, w.now + invite_ttl))

abbrev pub voided : World → ℕ → ℕ → Store → Store
voided w tenant_id user_id db = record db {
  invites = void_worker_invites w.now tenant_id user_id db.invites;
}

unfoldable pub create_invite : World → ℕ → ℕ → Store → Store × Result RosterError (String × ℕ)
create_invite w tenant_id user_id db =
    if w.fault void_invites
    then (db, err (failed_statement void_invites))
    else issued w (voided w tenant_id user_id db)
        (issue_code w attempts tenant_id user_id (voided w tenant_id user_id db).invites)

-- `reinviteStaffWorker`: the worker's id once it is parsed and found.
unfoldable pub find_worker : World → ℕ → String → Store → Result RosterError ℕ
find_worker w tenant_id id db = do
  user_id ← or_err (w.parse_uuid id) invalid_uuid
  reject_if (w.fault load_worker) (failed_statement load_worker)
  worker ← or_err (get_worker user_id tenant_id db.users) worker_not_found
  ok user_id

abbrev pub revoked : World → ℕ → ℕ → Store → Store
revoked w tenant_id user_id db = record db {
  device_tokens = revoke_worker_device_tokens w.now tenant_id user_id db.device_tokens;
}

abbrev pub revoke_and_invite :
    World → ℕ → ℕ → Bool → Store → Store × Result RosterError (String × ℕ)
revoke_and_invite w tenant_id user_id false db = create_invite w tenant_id user_id db
revoke_and_invite w tenant_id user_id true db =
    if w.fault revoke_tokens
    then (db, err (failed_statement revoke_tokens))
    else create_invite w tenant_id user_id (revoked w tenant_id user_id db)

unfoldable pub reinvite :
    World → ℕ → String → Bool → Store → Store × Result RosterError (String × ℕ)
reinvite w tenant_id id revoke db = elim (find_worker w tenant_id id db) [
  | err e ↦ (db, err e)
  | ok user_id ↦ revoke_and_invite w tenant_id user_id revoke db
]
