-- ===== src/Roster/Claimed.antt =====
-- An invite is claimed once (`ClaimWorker` of auth/service.go), whatever the auth service and the
-- roster (roster/invite.go, roster/http.go) do between two claims.
use sdano.Base.{
  ℕ, zero, suc, Bool, true, false, ◌≡◌, subst, Option, some, String, List, [], ◌∷◌, ◌==◌, is_some,
  if◌then◌else◌, Result, ok, err, Bool-cases, Option-cases, Result-cases, inl, inr, arith,
}
use sdano.Base.Table.{select_one, insert}
use sdano.Base.Table.Laws.{select_one-append, All-insert}
use sdano.Store.{Store, AppUser, WorkerInvite}
use sdano.Queries.Auth.{GetActiveInviteRow, is_claimable}
use sdano.Queries.Staff.{is_open_invite, void_worker_invites, insert_invite}
use sdano.Session.{
  Context, AuthError, invalid_invite, failed_statement, ClaimResult, begin_tx, mark_claimed,
}
use sdano.Session.Invites.{claim_tx, claim}
use sdano.Session.Reuse.{Operation, apply}
use sdano.Session.Claim.{
  has_id, Taken, IsTaken, used-Taken, claim_invite_takes, Taken-claim_invite, claim_tx-invites,
  apply-IsTaken,
}
use sdano.Roster.{
  World, RosterError, void_invites, put_invite, revoke_tokens, new_invite, attempts, issue_code,
  issued, voided, create_invite, find_worker, revoked, revoke_and_invite, reinvite,
}
use sdano.Roster.Workers.{
  PatchWorkerBody, new_worker, with_code, inserted_worker, create_staff_worker, patch_worker_call,
  patched_worker, patch_staff_worker,
}

-- A call of the auth service, or one of the roster that writes.
pub data Call : Type 0 where
  auth : Operation → Call
  reinvites : World → ℕ → String → Bool → Call
  adds_worker : World → ℕ → String → Call
  patches_worker : World → ℕ → String → Option PatchWorkerBody → Call

unfoldable pub run_call : Call → Store → Store
unfolding apply reinvite create_staff_worker patch_staff_worker
run_call (auth o) db = apply o db
run_call (reinvites w tenant_id id revoke) db = (reinvite w tenant_id id revoke db).0
run_call (adds_worker w tenant_id name) db = (create_staff_worker w tenant_id name db).0
run_call (patches_worker w tenant_id id body) db = (patch_staff_worker w tenant_id id body db).0

unfoldable pub run_calls : List Call → Store → Store
unfolding run_call
run_calls [] db = db
run_calls (c ∷ cs) db = run_calls cs (run_call c db)

-- === the roster's calls ===

other_id :
    (id : ℕ) (i : WorkerInvite) (t : List WorkerInvite)
    → is_some (select_one (has_id id) t) ≡ true
    → is_some (select_one (λ (x : WorkerInvite). x.id == i.id) t) ≡ false
    → (i.id == id) ≡ false
other_id id i t known fresh = elim (Bool-cases (i.id == id)) [
  | inr e ↦ e
  | inl e ↦
      let same : i.id ≡ id = ground arith in
      let both =
        subst (λ k. is_some (select_one (λ (x : WorkerInvite). x.id == k) t) ≡ false) same fresh in
      absurd (cc (known, both))
]

insert_invite-Taken :
    (id : ℕ) (i : WorkerInvite) (t t' : List WorkerInvite)
    → insert_invite i t ≡ some t'
    → Taken id t
    → Taken id t'
unfolding insert_invite
insert_invite-Taken id i t t' made h =
    let fresh : is_some (select_one (λ (x : WorkerInvite). x.id == i.id) t) ≡ false =
      ground arith in
    let row : insert i t ≡ t' = ground arith in
    let other = other_id id i t h.1 fresh in
    subst (Taken id) row (
      All-insert (λ x. is_claimable id x ≡ false) i t h.0 (ground (arith, other)),
      ground (arith, h.1, select_one-append (has_id id) t (i ∷ [])),
    )

issue_code-Taken :
    (w : World) (left tenant_id user_id id : ℕ) (t : List WorkerInvite)
    (r : List WorkerInvite × String)
    → issue_code w left tenant_id user_id t ≡ ok r
    → Taken id t
    → Taken id r.0
unfolding issue_code
issue_code-Taken w zero tenant_id user_id id t r made h = absurd (cc)
issue_code-Taken w (suc left) tenant_id user_id id t r made h = elim (Option-cases (w.draw left)) [
  | inl d ↦ absurd (cc (rw (d, issue_code) at made))
  | inr (code, d) ↦ elim (Bool-cases (w.fault (put_invite left))) [
    | inl f ↦ absurd (cc (rw (d, f, issue_code) at made))
    | inr f ↦ elim (Option-cases (insert_invite (new_invite w left tenant_id user_id code) t)) [
      | inl n ↦
          issue_code-Taken w left tenant_id user_id id t r (rw (d, f, n, issue_code) at made) h
      | inr (t', n) ↦
          let same : (t', code) ≡ r = cc (rw (d, f, n, issue_code) at made) in
          subst (λ (x : List WorkerInvite × String). Taken id x.0) same
            (insert_invite-Taken id (new_invite w left tenant_id user_id code) t t' n h)
    ]
  ]
]

create_invite-IsTaken :
    (w : World) (tenant_id user_id id : ℕ) (db : Store)
    → IsTaken id db
    → IsTaken id (create_invite w tenant_id user_id db).0
unfolding create_invite void_worker_invites
create_invite-IsTaken w tenant_id user_id id db h = elim (Bool-cases (w.fault void_invites)) [
  | inl f ↦ rw f h
  | inr f ↦
      let used = used-Taken id w.now (is_open_invite tenant_id user_id) db.invites h in
      elim (Result-cases
        (issue_code w attempts tenant_id user_id (voided w tenant_id user_id db).invites)) [
          | inr (e, m) ↦ rw (f, m, issued) used
          | inl (r, m) ↦
              rw (f, m, issued) (issue_code-Taken w attempts tenant_id user_id id _ r m used)
        ]
]

revoke_and_invite-IsTaken :
    (w : World) (tenant_id user_id id : ℕ) (revoke : Bool) (db : Store)
    → IsTaken id db
    → IsTaken id (revoke_and_invite w tenant_id user_id revoke db).0
revoke_and_invite-IsTaken w tenant_id user_id id false db h =
    create_invite-IsTaken w tenant_id user_id id db h
revoke_and_invite-IsTaken w tenant_id user_id id true db h =
    elim (Bool-cases (w.fault revoke_tokens)) [
      | inl f ↦ rw f h
      | inr f ↦
          rw f (create_invite-IsTaken w tenant_id user_id id (revoked w tenant_id user_id db) h)
    ]

reinvite-IsTaken :
    (w : World) (tenant_id id : ℕ) (text : String) (revoke : Bool) (db : Store)
    → IsTaken id db
    → IsTaken id (reinvite w tenant_id text revoke db).0
unfolding reinvite
reinvite-IsTaken w tenant_id id text revoke db h =
    elim (Result-cases (find_worker w tenant_id text db)) [
      | inr (e, f) ↦ rw (f, reinvite) h
      | inl (user_id, f) ↦
          rw (f, reinvite) (revoke_and_invite-IsTaken w tenant_id user_id id revoke db h)
    ]

with_code-IsTaken :
    (id : ℕ) (u : AppUser) (m : Store × Result RosterError (String × ℕ))
    → IsTaken id m.0
    → IsTaken id (with_code u m).0
with_code-IsTaken id u (db, err e) h = h
with_code-IsTaken id u (db, ok (code, expires)) h = h

create_staff_worker-IsTaken :
    (w : World) (tenant_id id : ℕ) (name : String) (db : Store)
    → IsTaken id db
    → IsTaken id (create_staff_worker w tenant_id name db).0
unfolding create_staff_worker
create_staff_worker-IsTaken w tenant_id id name db h =
    elim (Result-cases (inserted_worker w (new_worker w tenant_id name) db)) [
      | inr (e, f) ↦ rw (f, create_staff_worker) h
      | inl (t, f) ↦
          rw (f, create_staff_worker)
            (with_code-IsTaken id (new_worker w tenant_id name)
              (create_invite w tenant_id w.new_user_id (record db { users = t }))
              (create_invite-IsTaken w tenant_id w.new_user_id id (record db { users = t }) h))
    ]

patch_staff_worker-IsTaken :
    (w : World) (tenant_id id : ℕ) (text : String) (body : Option PatchWorkerBody) (db : Store)
    → IsTaken id db
    → IsTaken id (patch_staff_worker w tenant_id text body db).0
unfolding patch_staff_worker
patch_staff_worker-IsTaken w tenant_id id text body db h =
    elim (Result-cases (patch_worker_call w tenant_id text body db)) [
      | inr (e, f) ↦ rw (f, patched_worker) h
      | inl (r, f) ↦ rw (f, patched_worker) h
    ]

run_call-IsTaken : (id : ℕ) (c : Call) (db : Store) → IsTaken id db → IsTaken id (run_call c db)
unfolding run_call
run_call-IsTaken id (auth o) db h = apply-IsTaken id o db h
run_call-IsTaken id (reinvites w tenant_id text revoke) db h =
    reinvite-IsTaken w tenant_id id text revoke db h
run_call-IsTaken id (adds_worker w tenant_id name) db h =
    create_staff_worker-IsTaken w tenant_id id name db h
run_call-IsTaken id (patches_worker w tenant_id text body) db h =
    patch_staff_worker-IsTaken w tenant_id id text body db h

run_calls-IsTaken :
    (id : ℕ) (cs : List Call) (db : Store) → IsTaken id db → IsTaken id (run_calls cs db)
unfolding run_calls
run_calls-IsTaken id [] db h = h
run_calls-IsTaken id (c ∷ cs) db h =
    run_calls-IsTaken id cs (run_call c db) (run_call-IsTaken id c db h)

-- How a claim of a taken invite is answered.
abbrev pub refusal : Context → AuthError
refusal y =
    if y.fault begin_tx
    then failed_statement begin_tx
    else if y.fault mark_claimed
    then failed_statement mark_claimed
    else invalid_invite

IsTaken-claim :
    (y : Context) (again : GetActiveInviteRow) (db : Store)
    → IsTaken again.id db
    → claim y again db ≡ (db, err (refusal y))
unfolding claim claim_tx
IsTaken-claim y again db h = ground (arith, Taken-claim_invite again.id y.now db.invites h)

claim-takes :
    (x : Context) (inv : GetActiveInviteRow) (db : Store) (res : ClaimResult)
    → (claim x inv db).1 ≡ ok res
    → IsTaken inv.id (claim x inv db).0
unfolding claim
claim-takes x inv db res h =
    let committed : claim_tx x inv db ≡ ok ((claim x inv db).0, res) = ground arith in
    claim_invite_takes inv.id x.now db.invites _ (claim_tx-invites x inv db _ res committed)

-- Once a claim of an invite has handed out a device token, no later claim of it does, whatever
-- calls of the auth service and of the roster come between, whatever statements fail and however
-- early the later claim read the invite: it is refused, as invalid unless its transaction or its
-- statement fails, and the database stays as it is.
pub claim_once :
    (x y : Context) (inv again : GetActiveInviteRow) (db : Store) (res : ClaimResult)
    (between : List Call)
    → (claim x inv db).1 ≡ ok res
    → again.id ≡ inv.id
    → claim y again (run_calls between (claim x inv db).0)
      ≡ (run_calls between (claim x inv db).0, err (refusal y))
claim_once x y inv again db res between h same =
    IsTaken-claim y again (run_calls between (claim x inv db).0)
      (rw same (run_calls-IsTaken inv.id between (claim x inv db).0 (claim-takes x inv db res h)))
