-- ===== src/Roster/Invites.antt =====
-- What an issued invite is good for (roster/invite.go with `GetActiveInvite` of db/auth.sql.go).
use sdano.Base.{
  ℕ, zero, suc, ◌+◌, ◌<◌, ◌≡◌, refl, sym, ◌∙◌, none, some, String, List, [], ◌∷◌, ok, Result-cases,
  Option-cases, inl, inr, arith,
}
use sdano.Base.Texts.{str_eq_refl}
use sdano.Base.Table.{select_one, update, insert, matching}
use sdano.Base.Table.Laws.{select_one-append}
use sdano.Base.Table.Counts.{matching-insert}
use sdano.Store.{Store, AppUser, WorkerInvite}
use sdano.Queries.Auth.{is_active_user, is_active_invite, get_active_invite}
use sdano.Queries.Staff.{is_live_code, is_open_invite, void_worker_invites, insert_invite}
use sdano.Roster.{World, new_invite, invite_ttl, issue_code, voided, create_invite, attempts}

-- The table with the new invite, which no unused invite shares its code with.
record Inserted (w : World) (tenant user : ℕ) (code : String) (t t' : List WorkerInvite)
    : Type 0 where
  attempt : ℕ
  fresh : select_one (is_live_code code) t ≡ none
  written : t' ≡ insert (new_invite w attempt tenant user code) t

insert_invite-fresh :
    (i : WorkerInvite) (t t' : List WorkerInvite)
    → insert_invite i t ≡ some t'
    → (select_one (is_live_code i.code) t ≡ none) × (t' ≡ insert i t)
unfolding insert_invite
insert_invite-fresh i t t' h = elim (Option-cases (select_one (is_live_code i.code) t)) [
  | inr (x, f) ↦ absurd (ground arith)
  | inl f ↦ (f, ground arith)
]

issue_code-Inserted :
    (w : World) (n tenant user : ℕ) (t t' : List WorkerInvite) (code : String)
    → issue_code w n tenant user t ≡ ok (t', code)
    → Inserted w tenant user code t t'
unfolding issue_code
issue_code-Inserted w zero tenant user t t' code h = absurd (cc)
issue_code-Inserted w (suc n) tenant user t t' code h = elim (Option-cases (w.draw n)) [
  | inl f ↦ absurd (ground arith)
  | inr (c, f) ↦ elim (Option-cases (insert_invite (new_invite w n tenant user c) t)) [
    | inl g ↦ issue_code-Inserted w n tenant user t t' code (ground arith)
    | inr (u, g) ↦
        let (fresh, written) = insert_invite-fresh (new_invite w n tenant user c) t u g in
        let same : c ≡ code = ground arith in
        let same' : u ≡ t' = ground arith in
        record { attempt = n; fresh = rw same at fresh; written = sym same' ∙ (rw same at written) }
  ]
]

no_active :
    (now : ℕ) (code : String) (t : List WorkerInvite)
    → select_one (is_live_code code) t ≡ none
    → select_one (is_active_invite now code) t ≡ none
unfolding select_one
no_active now code [] h = refl
no_active now code (i ∷ t) h = ground (arith, no_active now code t)

create_invite-Inserted :
    (w : World) (tenant user : ℕ) (db db' : Store) (code : String) (expires : ℕ)
    → create_invite w tenant user db ≡ (db', ok (code, expires))
    → Inserted w tenant user code (voided w tenant user db).invites db'.invites
      × ((db'.users ≡ db.users) × (expires ≡ w.now + invite_ttl))
unfolding create_invite
create_invite-Inserted w tenant user db db' code expires h =
    elim (Result-cases (issue_code w attempts tenant user (voided w tenant user db).invites)) [
      | inr (e, f) ↦ absurd (ground arith)
      | inl ((t, c), f) ↦
          let same : c ≡ code = ground arith in
          let same' : t ≡ db'.invites = ground arith in
          (
            issue_code-Inserted w attempts tenant user (voided w tenant user db).invites db'.invites
                code (rw (same, same') at f),
            (ground arith, ground arith),
          )
    ]

active_found :
    (now : ℕ) (code : String) (db : Store) (i : WorkerInvite) (u : AppUser)
    → select_one (is_active_invite now code) db.invites ≡ some i
    → select_one (is_active_user i.user_id) db.users ≡ some u
    → get_active_invite now code db
      ≡ some (record {
        id = i.id;
        tenant_id = i.tenant_id;
        user_id = i.user_id;
        display_name = u.display_name;
      })
unfolding get_active_invite
active_found now code db i u h able = rw (h, get_active_invite) (rw able refl)

inserted-active :
    (now : ℕ) (i : WorkerInvite) (t : List WorkerInvite)
    → select_one (is_live_code i.code) t ≡ none
    → i.used_at ≡ none
    → now < i.expires_at
    → select_one (is_active_invite now i.code) (insert i t) ≡ some i
unfolding select_one
inserted-active now i t h unused early = ground (
  arith,
  select_one-append (is_active_invite now i.code) t (i ∷ []),
  no_active now i.code t h,
  str_eq_refl i.code,
)

-- The code that is issued admits its worker, while it has not expired and the worker is active:
-- the claim finds an invite of this tenant and worker under it, and no other.
pub issued_code_admits :
    (w : World) (tenant user : ℕ) (db db' : Store) (code : String) (expires later : ℕ) (u : AppUser)
    → create_invite w tenant user db ≡ (db', ok (code, expires))
    → later < expires
    → select_one (is_active_user user) db.users ≡ some u
    → (id : ℕ) × (get_active_invite later code db'
        ≡ some
            (record { id = id; tenant_id = tenant; user_id = user; display_name = u.display_name }))
issued_code_admits w tenant user db db' code expires later u h early able =
    let (inserted, (users, expiry)) = create_invite-Inserted w tenant user db db' code expires h in
    let i : WorkerInvite = new_invite w inserted.attempt tenant user code in
    (
      w.new_id inserted.attempt,
      active_found later code db' i u
          (rw inserted.written (
            inserted-active later i (voided w tenant user db).invites inserted.fresh refl
              (rw expiry at early)))
          (rw users able),
    )

void-none :
    (now tenant user : ℕ) (t : List WorkerInvite)
    → matching (is_open_invite tenant user) (void_worker_invites now tenant user t) ≡ 0
unfolding void_worker_invites matching update
void-none now tenant user [] = refl
void-none now tenant user (i ∷ t) = ground (arith, void-none now tenant user t)

-- After a code is issued the worker has exactly one unused invite: those before it are void.
one_open_invite :
    (w : World) (tenant user : ℕ) (db db' : Store) (code : String) (expires : ℕ)
    → create_invite w tenant user db ≡ (db', ok (code, expires))
    → matching (is_open_invite tenant user) db'.invites ≡ 1
one_open_invite w tenant user db db' code expires h =
    let (inserted, rest) = create_invite-Inserted w tenant user db db' code expires h in
    let i : WorkerInvite = new_invite w inserted.attempt tenant user code in
    rw inserted.written (
      ground (
        arith,
        matching-insert (is_open_invite tenant user) i (voided w tenant user db).invites,
        void-none w.now tenant user db.invites,
      ))
