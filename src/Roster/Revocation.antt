-- ===== src/Roster/Revocation.antt =====
-- A reinvite that revokes (`reinviteStaffWorker` of roster/http.go).
use sdano.Base.{ℕ, true, false, ◌≡◌, refl, String, List, [], ◌∷◌, All, Result, ok, err, arith}
use sdano.Base.Table.{update}
use sdano.Store.{Store, DeviceToken, WorkerInvite}
use sdano.Queries.Staff.{is_live_token, revoke_worker_device_tokens}
use sdano.Roster.{
  World, RosterError, revoke_tokens, issue_code, issued, voided, create_invite, attempts,
  find_worker, revoked, reinvite,
}

issued-devices :
    (w : World) (db : Store) (m : Result RosterError (List WorkerInvite × String))
    → (issued w db m).0.device_tokens ≡ db.device_tokens
issued-devices w db (ok (t, code)) = refl
issued-devices w db (err e) = refl

create_invite-devices :
    (w : World) (tenant user : ℕ) (db : Store)
    → (create_invite w tenant user db).0.device_tokens ≡ db.device_tokens
unfolding create_invite
create_invite-devices w tenant user db = ground (
  arith,
  issued-devices w (voided w tenant user db)
      (issue_code w attempts tenant user (voided w tenant user db).invites),
)

-- No token of the worker is left unrevoked.
abbrev pub NoneLive : ℕ → ℕ → List DeviceToken → Type 0
NoneLive tenant user = All (λ d. is_live_token tenant user d ≡ false)

revoke-NoneLive :
    (now tenant user : ℕ) (t : List DeviceToken)
    → NoneLive tenant user (revoke_worker_device_tokens now tenant user t)
unfolding revoke_worker_device_tokens update
revoke-NoneLive now tenant user [] = tt
revoke-NoneLive now tenant user (d ∷ t) = (ground arith, revoke-NoneLive now tenant user t)

-- A reinvite that revokes leaves no device token of the worker unrevoked, also where it then fails
-- to issue a code: it fails safe, once the worker is found and the revocation runs.
reinvite-NoneLive :
    (w : World) (tenant user : ℕ) (id : String) (db : Store)
    → find_worker w tenant id db ≡ ok user
    → w.fault revoke_tokens ≡ false
    → NoneLive tenant user (reinvite w tenant id true db).0.device_tokens
unfolding reinvite
reinvite-NoneLive w tenant user id db found runs =
    let devices = create_invite-devices w tenant user (revoked w tenant user db) in
    let next : (reinvite w tenant id true db).0.device_tokens
        ≡ revoke_worker_device_tokens w.now tenant user db.device_tokens =
      ground arith in
    rw next (revoke-NoneLive w.now tenant user db.device_tokens)
