-- ===== src/Session/Invites.antt =====
-- `ClaimWorker` of auth/service.go: the claim of a worker's invite.
use sdano.Base.{none, String, Result, ok, err, ◌>>=◌, ◌>>◌, or_err}
use sdano.Store.{Store, DeviceToken}
use sdano.Queries.Auth.{GetActiveInviteRow, get_active_invite, claim_invite, insert_device_token}
use sdano.Session.{
  Context, AuthError, ClaimResult, run_statement, assert_tenant_not_archived, commit, begin_tx,
  commit_tx, get_invite, mark_claimed, insert_device, invalid_invite, random_failed,
  failed_statement,
}

abbrev pub new_device_row : Context → GetActiveInviteRow → String → DeviceToken
new_device_row x inv plain = record {
  id = x.new_id;
  tenant_id = inv.tenant_id;
  user_id = inv.user_id;
  token_hash = x.crypto.hash_opaque_token plain;
  revoked_at = none;
}

unfoldable pub claim_read : Context → String → Store → Result AuthError GetActiveInviteRow
unfolding get_active_invite assert_tenant_not_archived
claim_read x code db = do
  run_statement x get_invite
  inv ← or_err (get_active_invite x.now code db) invalid_invite
  assert_tenant_not_archived x inv.tenant_id db
  ok inv

unfoldable pub claim_tx :
    Context → GetActiveInviteRow → Store → Result AuthError (Store × ClaimResult)
unfolding claim_invite insert_device_token
claim_tx x inv db = do
  run_statement x begin_tx
  run_statement x mark_claimed
  invites ← or_err (claim_invite x.now inv.id db.invites) invalid_invite
  plain ← or_err x.plaintext random_failed
  run_statement x insert_device
  devices ←
      or_err (insert_device_token (new_device_row x inv plain) db.device_tokens)
        (failed_statement insert_device)
  run_statement x commit_tx
  ok (
    record db { invites = invites; device_tokens = devices },
    record { device_token = plain; worker_id = inv.user_id; worker_name = inv.display_name },
  )

unfoldable pub claim : Context → GetActiveInviteRow → Store → Store × Result AuthError ClaimResult
claim x inv db = commit db (claim_tx x inv db)

unfoldable pub claim_worker : Context → String → Store → Store × Result AuthError ClaimResult
claim_worker x code db = elim (claim_read x code db) [
  | ok inv ↦ claim x inv db
  | err e ↦ (db, err e)
]
