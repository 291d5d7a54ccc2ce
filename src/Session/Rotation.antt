-- ===== src/Session/Rotation.antt =====
-- `Refresh` of auth/service.go: the rotation of a refresh token.
use sdano.Base.{
  ℕ, ◌||◌, not, none, some, String, List, ltb, is_some, Result, ok, err, ◌>>=◌, ◌>>◌, reject_if,
  or_err,
}
use sdano.Store.{Store, RefreshToken}
use sdano.Queries.Auth.{
  GetRefreshTokenRow, get_refresh_token, mark_refresh_token_used, revoke_user_refresh_tokens,
}
use sdano.Session.{
  Principal, Context, AuthError, TokenPair, run_statement, assert_tenant_not_archived,
  issue_refresh, access_ttl, get_refresh, begin_tx, lock_user, revoke_chain, mark_used, commit_tx,
  invalid_refresh, sign_failed,
}

unfoldable pub refresh_read : Context → String → Store → Result AuthError GetRefreshTokenRow
unfolding get_refresh_token assert_tenant_not_archived
refresh_read x refresh_plaintext db = do
  run_statement x get_refresh
  r ← or_err (get_refresh_token (x.crypto.hash_opaque_token refresh_plaintext) db) invalid_refresh
  reject_if (is_some r.revoked_at || (not r.is_active || ltb r.expires_at x.now)) invalid_refresh
  assert_tenant_not_archived x r.tenant_id db
  ok r

-- The theft branch: the whole chain is revoked, and that is committed.
unfoldable pub revoke_chain_tx :
    Context → ℕ → Store → Result AuthError (Store × Result AuthError TokenPair)
unfolding revoke_user_refresh_tokens
revoke_chain_tx x user_id db = do
  run_statement x revoke_chain
  run_statement x commit_tx
  ok (
    record db { refresh_tokens = revoke_user_refresh_tokens x.now user_id db.refresh_tokens },
    err invalid_refresh,
  )

abbrev pub principal_of_row : GetRefreshTokenRow → Principal
principal_of_row r = record { user_id = r.user_id; tenant_id = r.tenant_id; role = r.role }

-- The rotation proper, with the old token marked as used.
unfoldable pub issue_pair_tx :
    Context
    → GetRefreshTokenRow
    → List RefreshToken
    → Store
    → Result AuthError (Store × Result AuthError TokenPair)
unfolding issue_refresh
issue_pair_tx x r marked db = do
  access ← or_err (x.crypto.issue_access_token (principal_of_row r) x.now access_ttl) sign_failed
  (tokens, plain) ← issue_refresh x r.tenant_id r.user_id marked
  run_statement x commit_tx
  ok (
    record db { refresh_tokens = tokens },
    ok (record { access_token = access; refresh_token = plain }),
  )

unfoldable pub rotate_tx :
    Context → GetRefreshTokenRow → Store → Result AuthError (Store × Result AuthError TokenPair)
rotate_tx x r db = do
  run_statement x begin_tx
  run_statement x lock_user
  elim r.used_at [
    | some t ↦ revoke_chain_tx x r.user_id db
    | none ↦ do
      run_statement x mark_used
      elim (mark_refresh_token_used x.now r.id db.refresh_tokens) [
        | none ↦ revoke_chain_tx x r.user_id db
        | some marked ↦ issue_pair_tx x r marked db
      ]
  ]

-- The transaction on a row that was read before it.
unfoldable pub rotate : Context → GetRefreshTokenRow → Store → Store × Result AuthError TokenPair
rotate x r db = elim (rotate_tx x r db) [ ok (db', res) ↦ (db', res) | err e ↦ (db, err e) ]

unfoldable pub refresh : Context → String → Store → Store × Result AuthError TokenPair
refresh x refresh_plaintext db = elim (refresh_read x refresh_plaintext db) [
  | ok r ↦ rotate x r db
  | err e ↦ (db, err e)
]
