-- ===== src/Session/Claim.antt =====
-- What the calls of the auth service do to an invite that was claimed (auth/service.go).
use sdano.Base.{
  ℕ, Bool, true, false, ◌==◌, is_some, ◌≡◌, refl, subst, none, some, List, [], ◌∷◌, String, All,
  Result, ok, Result-cases, Option-cases, inl, inr, arith,
}
use sdano.Base.Table.{select_one, update}
use sdano.Base.Table.Laws.{All-update, select_one-update}
use sdano.Store.{Store, WorkerInvite, RefreshToken}
use sdano.Queries.Auth.{
  GetRefreshTokenRow, GetActiveInviteRow, is_claimable, claim_invite, mark_refresh_token_used,
}
use sdano.Queries.Staff.{use_invite}
use sdano.Session.{
  Context, AuthError, TokenPair, ClaimResult, login_as, login_body, login, logout, commit,
}
use sdano.Session.Rotation.{
  revoke_chain_tx, issue_pair_tx, rotate_tx, rotate, refresh_read, refresh,
}
use sdano.Session.Invites.{claim_tx, claim, claim_read, claim_worker}
use sdano.Session.Login.{login_body-Eligible}
use sdano.Session.Reuse.{
  Operation, logs_in, refreshes, rotates, logs_out, claims, claims_code, apply,
}

abbrev pub has_id : ℕ → WorkerInvite → Bool
has_id id i = i.id == id

-- There is an invite with this id, and none that can be claimed.
abbrev pub Taken : ℕ → List WorkerInvite → Type 0
Taken id t = All (λ i. is_claimable id i ≡ false) t × (is_some (select_one (has_id id) t) ≡ true)

abbrev pub IsTaken : ℕ → Store → Type 0
IsTaken id db = Taken id db.invites

-- === the other calls leave the invites alone ===

revoke_chain_tx-invites :
    (x : Context) (user : ℕ) (db db' : Store) (res : Result AuthError TokenPair)
    → revoke_chain_tx x user db ≡ ok (db', res)
    → db'.invites ≡ db.invites
unfolding revoke_chain_tx
revoke_chain_tx-invites x user db db' res h = ground arith

issue_pair_tx-invites :
    (x : Context) (r : GetRefreshTokenRow) (t : List RefreshToken) (db db' : Store)
    (res : Result AuthError TokenPair)
    → issue_pair_tx x r t db ≡ ok (db', res)
    → db'.invites ≡ db.invites
unfolding issue_pair_tx
issue_pair_tx-invites x r t db db' res h = ground arith

rotate_tx-invites :
    (x : Context) (r : GetRefreshTokenRow) (db db' : Store) (res : Result AuthError TokenPair)
    → rotate_tx x r db ≡ ok (db', res)
    → db'.invites ≡ db.invites
unfolding rotate_tx
rotate_tx-invites x r db db' res h =
    elim (Option-cases (mark_refresh_token_used x.now r.id db.refresh_tokens)) [
      | inl m ↦ ground (arith, revoke_chain_tx-invites x r.user_id db db' res)
      | inr (t, m) ↦ ground (
        arith,
        revoke_chain_tx-invites x r.user_id db db' res,
        issue_pair_tx-invites x r t db db' res,
      )
    ]

rotate-invites :
    (x : Context) (r : GetRefreshTokenRow) (db : Store) → (rotate x r db).0.invites ≡ db.invites
unfolding rotate
rotate-invites x r db = elim (Result-cases (rotate_tx x r db)) [
  | inr (e, f) ↦ rw (f, rotate) refl
  | inl ((db', res), f) ↦ rw (f, rotate) (rotate_tx-invites x r db db' res f)
]

refresh-invites :
    (x : Context) (plain : String) (db : Store) → (refresh x plain db).0.invites ≡ db.invites
unfolding refresh
refresh-invites x plain db = elim (Result-cases (refresh_read x plain db)) [
  | inl (r, f) ↦ rw (f, refresh) (rotate-invites x r db)
  | inr (e, f) ↦ rw (f, refresh) refl
]

login-invites :
    (x : Context) (email password : String) (db : Store)
    → (login x email password db).0.invites ≡ db.invites
unfolding login login_as
login-invites x email password db = elim (Result-cases (login_body x email password db)) [
  | inr (e, f) ↦ rw (f, login, commit) refl
  | inl ((db', res), f) ↦
      let (u, able, g) = login_body-Eligible x email password db db' res f in
      rw (f, login, commit) (ground arith)
]

-- === claiming ===

-- To use invites neither removes one nor makes one claimable.
pub used-Taken :
    (id now : ℕ) (p : WorkerInvite → Bool) (t : List WorkerInvite)
    → Taken id t
    → Taken id (update p (use_invite now) t)
used-Taken id now p t h = (
  All-update (λ i. is_claimable id i ≡ false) p (use_invite now) t (λ i k _. ground arith) h.0,
  ground (arith, select_one-update (has_id id) p (use_invite now) t (λ i. refl), h.1),
)

claim_invite-Taken :
    (id now other : ℕ) (t t' : List WorkerInvite)
    → claim_invite now other t ≡ some t'
    → Taken id t
    → Taken id t'
unfolding claim_invite
claim_invite-Taken id now other t t' m h =
    let e : update (is_claimable other) (use_invite now) t ≡ t' = ground arith in
    subst (Taken id) e (used-Taken id now (is_claimable other) t h)

claimed :
    (id now : ℕ) (t : List WorkerInvite)
    → All (λ i. is_claimable id i ≡ false) (update (is_claimable id) (use_invite now) t)
unfolding update
claimed id now [] = tt
claimed id now (i ∷ t) = (ground arith, claimed id now t)

claimable_known :
    (id now : ℕ) (t : List WorkerInvite)
    → is_some (select_one (is_claimable id) t) ≡ true
    → is_some (select_one (has_id id) (update (is_claimable id) (use_invite now) t)) ≡ true
unfolding select_one update
claimable_known id now [] h = h
claimable_known id now (i ∷ t) h = ground (arith, claimable_known id now t)

pub claim_invite_takes :
    (id now : ℕ) (t t' : List WorkerInvite) → claim_invite now id t ≡ some t' → Taken id t'
unfolding claim_invite
claim_invite_takes id now t t' m =
    let e : update (is_claimable id) (use_invite now) t ≡ t' = ground arith in
    let found : is_some (select_one (is_claimable id) t) ≡ true = ground arith in
    subst (Taken id) e (claimed id now t, claimable_known id now t found)

pub Taken-claim_invite :
    (id now : ℕ) (t : List WorkerInvite) → Taken id t → claim_invite now id t ≡ none
unfolding claim_invite
Taken-claim_invite id now t h = ground (arith, none_found t h.0)
  where
    none_found :
        (u : List WorkerInvite)
        → All (λ i. is_claimable id i ≡ false) u
        → select_one (is_claimable id) u ≡ none
    none_found [] k = refl
    none_found (i ∷ u) k = ground (arith, none_found u k.1)

pub claim_tx-invites :
    (x : Context) (inv : GetActiveInviteRow) (db db' : Store) (res : ClaimResult)
    → claim_tx x inv db ≡ ok (db', res)
    → claim_invite x.now inv.id db.invites ≡ some db'.invites
unfolding claim_tx
claim_tx-invites x inv db db' res h = ground arith

claim-IsTaken :
    (x : Context) (inv : GetActiveInviteRow) (id : ℕ) (db : Store)
    → IsTaken id db
    → IsTaken id (claim x inv db).0
unfolding claim
claim-IsTaken x inv id db h = elim (Result-cases (claim_tx x inv db)) [
  | inr (e, f) ↦ rw (f, claim, commit) h
  | inl ((db', res), f) ↦
      rw (f, claim, commit)
        (claim_invite-Taken id x.now inv.id db.invites db'.invites
          (claim_tx-invites x inv db db' res f) h)
]

claim_worker-IsTaken :
    (x : Context) (code : String) (id : ℕ) (db : Store)
    → IsTaken id db
    → IsTaken id (claim_worker x code db).0
unfolding claim_worker
claim_worker-IsTaken x code id db h = elim (Result-cases (claim_read x code db)) [
  | inl (inv, f) ↦ rw (f, claim_worker) (claim-IsTaken x inv id db h)
  | inr (e, f) ↦ rw (f, claim_worker) h
]

pub apply-IsTaken : (id : ℕ) (o : Operation) (db : Store) → IsTaken id db → IsTaken id (apply o db)
unfolding apply logout
apply-IsTaken id (logs_in x email password) db h = rw (login-invites x email password db) h
apply-IsTaken id (refreshes x plain) db h = rw (refresh-invites x plain db) h
apply-IsTaken id (rotates x r) db h = rw (rotate-invites x r db) h
apply-IsTaken id (logs_out x plain) db h = ground (arith, h)
apply-IsTaken id (claims x inv) db h = claim-IsTaken x inv id db h
apply-IsTaken id (claims_code x code) db h = claim_worker-IsTaken x code id db h
