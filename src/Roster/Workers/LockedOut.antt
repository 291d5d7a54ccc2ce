-- ===== src/Roster/Workers/LockedOut.antt =====
-- What a worker who was deactivated can no longer do (roster/http.go, `patchStaffWorker`, with
-- `GetDeviceSession` and `GetActiveInvite` of db/auth.sql.go).
use sdano.Base.{
  ℕ, Bool, false, ◌≡◌, refl, sym, ap, ◌∙◌, subst, ◌&&◌, Option, none, some, String, List, [], ◌∷◌,
  ◌==◌, str_eq, is_none, All, Result, ok, Bool-cases, Option-cases, Result-cases, inl, inr, arith,
}
use sdano.Base.Table.{select_one, update, matching}
use sdano.Base.Table.Laws.{select_one_fits}
use sdano.Base.Table.Keys.{Unique, select_one_absent}
use sdano.Middleware.{is_worker}
use sdano.Store.{Store, AppUser, DeviceToken}
use sdano.Queries.Auth.{
  is_active_user, is_active_invite, GetDeviceSessionRow, get_device_session, GetActiveInviteRow,
  get_active_invite,
}
use sdano.Queries.Staff.{is_worker_of, UpdateWorkerParams, changed, update_worker}
use sdano.Queries.Objects.{or_else}
use sdano.Queries.Orders.{count_active_workers_in_tenant}
use sdano.Queries.Worker.{contains}
use sdano.Roster.{World, RosterError, update_row}
use sdano.Roster.Workers.{
  StaffWorkerView, PatchWorkerBody, patch_body, patch_worker_params, patch_worker_call,
  patched_worker, patch_staff_worker, view_of,
}

-- Whose session it is.
abbrev pub opens_for : ℕ → Option GetDeviceSessionRow → Bool
opens_for id none = false
opens_for id (some s) = s.user_id == id

abbrev pub admits : ℕ → Option GetActiveInviteRow → Bool
admits id none = false
admits id (some i) = i.user_id == id

abbrev open_token : String → DeviceToken → Bool
open_token hash t = str_eq t.token_hash hash && is_none t.revoked_at

absent_inactive :
    (a : UpdateWorkerParams) (id : ℕ) (t : List AppUser)
    → All (λ (s : AppUser). (s.id == id) ≡ false) t
    → All
        (λ (s : AppUser). is_active_user id s ≡ false)
        (update (is_worker_of a.id a.tenant_id) (changed a) t)
unfolding update
absent_inactive a id [] h = tt
absent_inactive a id (u ∷ t) h = (ground (arith, h.0), absent_inactive a id t h.1)

-- The update deactivates the one row of the worker.
none_active :
    (a : UpdateWorkerParams) (t : List AppUser) (u : AppUser)
    → Unique (λ (s : AppUser). s.id) t
    → a.is_active ≡ some false
    → select_one (is_worker_of a.id a.tenant_id) t ≡ some u
    → All
        (λ (s : AppUser). is_active_user a.id s ≡ false)
        (update (is_worker_of a.id a.tenant_id) (changed a) t)
unfolding update select_one
none_active a [] u unique off h = tt
none_active a (s ∷ t) u unique off h = elim (Bool-cases (s.id == a.id)) [
  | inr e ↦ (ground arith, none_active a t u unique.1 off (rw e at h))
  | inl e ↦
      let e' : s.id ≡ a.id = ground arith in
      let others = subst (λ k. All (λ (x : AppUser). (x.id == k) ≡ false) t) e' unique.0 in
      let absent =
        select_one_absent (λ (x : AppUser). x.id)
          (λ x. x.tenant_id == a.tenant_id && is_worker x.role) a.id t others in
      (ground (arith, absent, off), absent_inactive a a.id t others)
]

module _ (q : AppUser → Bool) where
  found_not :
      (p : AppUser → Bool) (t : List AppUser) (u : AppUser)
      → All (λ s. q s ≡ false) t
      → select_one p t ≡ some u
      → q u ≡ false
  unfolding select_one
  found_not p [] u a h = absurd (cc)
  found_not p (s ∷ t) u a h = elim (Bool-cases (p s)) [
    | inl e ↦ let same : s ≡ u = cc (rw e at h) in subst (λ x. q x ≡ false) same a.0
    | inr e ↦ found_not p t u a.1 (rw e at h)
  ]

module _ (id : ℕ) (db : Store)
    (none : All (λ (s : AppUser). is_active_user id s ≡ false) db.users) where
  no_user :
      (k : ℕ) (u : AppUser)
      → select_one (is_active_user k) db.users ≡ some u
      → ((k == id) ≡ false) × ((u.id == id) ≡ false)
  no_user k u h =
      let fits = select_one_fits (is_active_user k) db.users h in
      let not_it = found_not (is_active_user id) (is_active_user k) db.users u none h in
      (ground (arith, fits, not_it), ground (arith, fits, not_it))

  no_session : (hash : String) → opens_for id (get_device_session hash db) ≡ false
  unfolding get_device_session
  no_session hash = elim (Option-cases (select_one (open_token hash) db.device_tokens)) [
    | inl e ↦ rw (e, opens_for) refl
    | inr (d, e) ↦ elim (Option-cases (select_one (is_active_user d.user_id) db.users)) [
      | inl f ↦ rw (e, f, opens_for) refl
      | inr (u, f) ↦ rw (e, f, opens_for) (no_user d.user_id u f).1
    ]
  ]

  no_claim : (now : ℕ) (code : String) → admits id (get_active_invite now code db) ≡ false
  unfolding get_active_invite
  no_claim now code = elim (Option-cases (select_one (is_active_invite now code) db.invites)) [
    | inl e ↦ rw (e, admits) refl
    | inr (i, e) ↦ elim (Option-cases (select_one (is_active_user i.user_id) db.users)) [
      | inl f ↦ rw (e, f, admits) refl
      | inr (u, f) ↦ rw (e, f, admits) (no_user i.user_id u f).0
    ]
  ]

no_count :
    (id tenant_id : ℕ) (t : List AppUser)
    → All (λ (s : AppUser). is_active_user id s ≡ false) t
    → count_active_workers_in_tenant tenant_id (id ∷ []) t ≡ 0
unfolding count_active_workers_in_tenant matching contains
no_count id tenant_id [] h = refl
no_count id tenant_id (u ∷ t) h = ground (arith, h.0, no_count id tenant_id t h.1)

-- A change that succeeds has run its update.
patch_worker_lem :
    (w : World) (tenant_id : ℕ) (text : String) (body : Option PatchWorkerBody) (db : Store)
    (r : List AppUser × AppUser)
    → patch_worker_call w tenant_id text body db ≡ ok r
    → (id : ℕ) × (old : AppUser) × (let a = patch_worker_params id tenant_id (patch_body body) in
        (select_one (is_worker_of id tenant_id) db.users ≡ some old)
        × (r ≡ (update (is_worker_of id tenant_id) (changed a) db.users, changed a old)))
unfolding patch_worker_call update_worker
patch_worker_lem w tenant_id text body db r h = elim (Option-cases (w.parse_uuid text)) [
  | inl n ↦ absurd (cc (rw n at h))
  | inr (id, i) ↦ elim (Bool-cases (w.fault update_row)) [
    | inl f ↦ absurd (cc (rw (i, f) at h))
    | inr f ↦ elim (Option-cases (select_one (is_worker_of id tenant_id) db.users)) [
      | inl n ↦ absurd (cc (rw (i, f, n) at h))
      | inr (old, e) ↦ (id, old, (e, cc (rw (i, f, e) at h)))
    ]
  ]
]

-- Once a worker is deactivated, no device token opens a session of the worker and no invite code
-- admits the worker, at any time, and the worker does not count as one that orders can be assigned
-- to; where user ids are unique.
pub deactivated_locked_out :
    (w : World) (tenant_id : ℕ) (text : String) (body : Option PatchWorkerBody) (db db' : Store)
    (v : StaffWorkerView) (hash code : String) (now : ℕ)
    → Unique (λ (s : AppUser). s.id) db.users
    → (patch_body body).is_active ≡ some false
    → patch_staff_worker w tenant_id text body db ≡ (db', ok v)
    → (v.is_active ≡ false)
      × ((opens_for v.id (get_device_session hash db') ≡ false)
          × ((admits v.id (get_active_invite now code db') ≡ false)
              × (count_active_workers_in_tenant tenant_id (v.id ∷ []) db'.users ≡ 0)))
unfolding patch_staff_worker
deactivated_locked_out w tenant_id text body db db' v hash code now unique off h =
    elim (Result-cases (patch_worker_call w tenant_id text body db)) [
      | inr (e, f) ↦ absurd (cc (ap (patched_worker db) (sym f) ∙ h))
      | inl (r, f) ↦
          let call = ap (patched_worker db) (sym f) ∙ h in
          let kept = ap (λ (y : Store × Result RosterError StaffWorkerView). y.0.users) call in
          let shown : view_of r.1 none none ≡ v =
            cc (ap (λ (y : Store × Result RosterError StaffWorkerView). y.1) call) in
          let (id, old, (found, same)) = patch_worker_lem w tenant_id text body db r f in
          let a = patch_worker_params id tenant_id (patch_body body) in
          let fits = select_one_fits (is_worker_of id tenant_id) db.users found in
          let own : old.id ≡ id = ground (arith, fits) in
          let named : v.id ≡ id =
            ap (λ (x : StaffWorkerView). x.id) (sym shown)
            ∙ ap (λ (x : List AppUser × AppUser). x.1.id) same
            ∙ own in
          let users = ap (λ (x : List AppUser × AppUser). x.0) (sym same) ∙ kept in
          let off' =
            subst (λ k. All (λ (s : AppUser). is_active_user k s ≡ false) db'.users) (sym named)
              (subst (All (λ (s : AppUser). is_active_user id s ≡ false)) users
                (none_active a db.users old unique off found)) in
          (
            ap (λ (x : StaffWorkerView). x.is_active) (sym shown)
                ∙ ap (λ (x : List AppUser × AppUser). x.1.is_active) same
                ∙ ap (λ o. or_else o old.is_active) off,
            (
              no_session v.id db' off' hash,
              (no_claim v.id db' off' now code, no_count v.id tenant_id db'.users off'),
            ),
          )
    ]
