-- ===== src/Session/Reuse.antt =====
-- A refresh token is good for one rotation, and its reuse revokes the chain (`Refresh` of
-- auth/service.go), whatever requests come between and however stale the row is that was read.
use sdano.Base.{
  ℕ, false, ◌&&◌, ◌≡◌, refl, ◌∙◌, none, some, List, [], ◌∷◌, String, ◌==◌, is_none, All, Result, ok,
  err, Option-cases, arith, ◌⊎◌,
}
use sdano.Base.Table.{update}
use sdano.Store.{Store, RefreshToken}
use sdano.Queries.Auth.{GetRefreshTokenRow, GetActiveInviteRow, revoke_user_refresh_tokens}
use sdano.Session.{
  Context, AuthStatement, AuthError, invalid_refresh, TokenPair, login, logout, begin_tx, lock_user,
  mark_used, revoke_chain, commit_tx,
}
use sdano.Session.Rotation.{revoke_chain_tx, rotate_tx, rotate, refresh}
use sdano.Session.Invites.{claim, claim_worker}
use sdano.Session.Spent.{IsSpent, mark_spends, IsSpent-mark}
use sdano.Session.Calls.{
  Rotated, revoked, issued, rotate_tx-Rotated, issue_refresh-IsSpent, rotate-IsSpent, login-IsSpent,
  logout-IsSpent, refresh-IsSpent, claim-tokens, claim_worker-tokens,
}

-- One call of the service, or one transaction on a row that was read at any time before.
pub data Operation : Type 0 where
  logs_in : Context → String → String → Operation
  refreshes : Context → String → Operation
  rotates : Context → GetRefreshTokenRow → Operation
  logs_out : Context → String → Operation
  claims : Context → GetActiveInviteRow → Operation
  claims_code : Context → String → Operation

unfoldable pub apply : Operation → Store → Store
apply (logs_in x email password) db = (login x email password db).0
apply (refreshes x plain) db = (refresh x plain db).0
apply (rotates x r) db = (rotate x r db).0
apply (logs_out x plain) db = (logout x plain db).0
apply (claims x inv) db = (claim x inv db).0
apply (claims_code x code) db = (claim_worker x code db).0

unfoldable pub history : List Operation → Store → Store
history [] db = db
history (o ∷ os) db = history os (apply o db)

apply-IsSpent :
    (id : ℕ) (o : Operation) (db : Store)
    → IsSpent id db.refresh_tokens
    → IsSpent id (apply o db).refresh_tokens
unfolding apply
apply-IsSpent id (logs_in x email password) db h = login-IsSpent x email password id db h
apply-IsSpent id (refreshes x plain) db h = refresh-IsSpent x plain id db h
apply-IsSpent id (rotates x r) db h = rotate-IsSpent x r id db h
apply-IsSpent id (logs_out x plain) db h = logout-IsSpent x plain id db h
apply-IsSpent id (claims x inv) db h = rw (claim-tokens x inv db) h
apply-IsSpent id (claims_code x code) db h = rw (claim_worker-tokens x code db) h

history-IsSpent :
    (id : ℕ) (os : List Operation) (db : Store)
    → IsSpent id db.refresh_tokens
    → IsSpent id (history os db).refresh_tokens
unfolding history
history-IsSpent id [] db h = h
history-IsSpent id (o ∷ os) db h = history-IsSpent id os (apply o db) (apply-IsSpent id o db h)

rotate-commits :
    (x : Context) (r : GetRefreshTokenRow) (db : Store) (pair : TokenPair)
    → (rotate x r db).1 ≡ ok pair
    → rotate_tx x r db ≡ ok ((rotate x r db).0, ok pair)
unfolding rotate
rotate-commits x r db pair h = ground arith

-- A rotation that hands out tokens has spent its own.
rotate_spends :
    (x : Context) (r : GetRefreshTokenRow) (db : Store) (pair : TokenPair)
    → (rotate x r db).1 ≡ ok pair
    → IsSpent r.id (rotate x r db).0.refresh_tokens
rotate_spends x r db pair h =
    by_case (rotate_tx-Rotated x r db _ (ok pair) (rotate-commits x r db pair h))
  where
    by_case :
        Rotated x r db (rotate x r db).0 (ok pair) → IsSpent r.id (rotate x r db).0.refresh_tokens
    by_case (revoked a b) = absurd (cc)
    by_case (issued t plain m i) =
        issue_refresh-IsSpent x r.tenant_id r.user_id r.id t _ plain i
          (mark_spends r.id x.now db.refresh_tokens t m)

-- On a spent token the transaction only revokes.
rotate_tx-spent :
    (y : Context) (s : GetRefreshTokenRow) (db : Store)
    → IsSpent s.id db.refresh_tokens
    → (s.used_at ≡ none) ⊎ ((t : ℕ) × (s.used_at ≡ some t))
    → ((statement : AuthStatement) → y.fault statement ≡ false)
    → rotate_tx y s db ≡ revoke_chain_tx y s.user_id db
unfolding rotate_tx
rotate_tx-spent y s db h c clear = ground (
  arith,
  IsSpent-mark s.id y.now db.refresh_tokens h,
  clear begin_tx,
  clear lock_user,
  clear mark_used,
)

-- No token of the user is left unrevoked.
abbrev pub NoneLive : ℕ → List RefreshToken → Type 0
NoneLive user = All (λ t. (t.user_id == user && is_none t.revoked_at) ≡ false)

revoke_user-NoneLive :
    (now user : ℕ) (t : List RefreshToken) → NoneLive user (revoke_user_refresh_tokens now user t)
unfolding revoke_user_refresh_tokens update
revoke_user-NoneLive now user [] = tt
revoke_user-NoneLive now user (r ∷ t) = (ground arith, revoke_user-NoneLive now user t)

module _ (x y : Context) (r s : GetRefreshTokenRow) (db : Store) (pair : TokenPair)
    (between : List Operation) (rotated : (rotate x r db).1 ≡ ok pair) (same : s.id ≡ r.id) where
  abbrev later : Store
  later = history between (rotate x r db).0

  still-IsSpent : IsSpent s.id later.refresh_tokens
  still-IsSpent = rw same (history-IsSpent r.id between _ (rotate_spends x r db pair rotated))

  -- Once a rotation has handed out tokens, no later rotation of the same token hands out any,
  -- whatever calls come between, whatever statements fail, and however early its row was read.
  pub rotation_once : (e : AuthError) × ((rotate y s later).1 ≡ err e)
  unfolding rotate
  rotation_once = by_result (rotate_tx y s later) refl
    where
      no_pair :
          (db' : Store) (res : Result AuthError TokenPair)
          → Rotated y s later db' res
          → res ≡ err invalid_refresh
      no_pair db' res (revoked a b) = b
      no_pair db' res (issued t plain m i) =
          absurd (ground (arith, IsSpent-mark s.id y.now later.refresh_tokens still-IsSpent))

      by_result :
          (m : Result AuthError (Store × Result AuthError TokenPair))
          → rotate_tx y s later ≡ m
          → (e : AuthError) × ((rotate y s later).1 ≡ err e)
      by_result (err e) f = (e, rw (f, rotate) refl)
      by_result (ok (db', res)) f = (
        invalid_refresh,
        rw (f, rotate) (no_pair db' res (rotate_tx-Rotated y s later db' res f)),
      )

  -- Where no statement of it fails, a second rotation of a token that was rotated is answered as
  -- invalid and revokes every refresh token of the user, whatever calls come between and however
  -- early its row was read.
  pub reuse_revokes_chain :
      ((statement : AuthStatement) → y.fault statement ≡ false)
      → ((rotate y s later).1 ≡ err invalid_refresh)
        × NoneLive s.user_id (rotate y s later).0.refresh_tokens
  unfolding rotate revoke_chain_tx
  reuse_revokes_chain clear =
      rw (revokes, rotate) (refl, revoke_user-NoneLive y.now s.user_id later.refresh_tokens)
    where
      tokens : List RefreshToken
      tokens = revoke_user_refresh_tokens y.now s.user_id later.refresh_tokens

      revokes :
          rotate_tx y s later ≡ ok (record later { refresh_tokens = tokens }, err invalid_refresh)
      revokes =
          rotate_tx-spent y s later still-IsSpent (Option-cases s.used_at) clear
          ∙ ground (arith, clear revoke_chain, clear commit_tx)
