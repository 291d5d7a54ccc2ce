-- ===== src/Middleware/Gate.antt =====
-- Who reaches a handler (`Authenticate` and `Authorize` of auth/middleware.go).
use sdano.Base.{
  ℕ, Bool, true, false, ◌≡◌, refl, ◌↔◌, ◌∙◌, subst, Option, some, ok, Result-cases, Option-cases,
  Bool-cases, inl, inr, arith,
}
use sdano.Base.Bytes.{Bytes, has_prefix}
use sdano.Store.{Store, TenantStatus, active, archived, suspended, trial, UserRole}
use sdano.Queries.Auth.{get_tenant_status}
use sdano.Session.{Principal}
use sdano.RateLimit.{Limit, RateLimiter, limit_by_ip}
use sdano.Middleware.{
  admit_principal, serve, Faults, Request, TokenLibrary, check_role, check_status,
  authorize_principal, authorize, authenticate, is_staff, is_worker, is_mutation, staff_prefix,
  worker_prefix, resolve, bearer,
}

-- The role that the path asks for.
pub data RoleFits (path : Bytes) (role : UserRole) : Type 0 where
  staff_path : has_prefix path staff_prefix ≡ true → is_staff role ≡ true → RoleFits path role
  worker_path :
      has_prefix path staff_prefix ≡ false
      → has_prefix path worker_prefix ≡ true
      → is_worker role ≡ true
      → RoleFits path role

-- What a tenant may do in its status.
pub data StatusFits (req : Request) : TenantStatus → Type 0 where
  in_trial : StatusFits req trial
  paying : StatusFits req active
  reading : is_mutation req.method ≡ false → StatusFits req suspended
  evidence : req.suspended_writable ≡ true → StatusFits req suspended

check_role-RoleFits :
    (path : Bytes) (role : UserRole) → check_role path role ≡ ok tt → RoleFits path role
unfolding check_role
check_role-RoleFits path role h = elim (Bool-cases (has_prefix path staff_prefix)) [
  | inl staff ↦ staff_path staff (ground arith)
  | inr other ↦ worker_path other (ground arith) (ground arith)
]

RoleFits-check_role :
    (path : Bytes) (role : UserRole) → RoleFits path role → check_role path role ≡ ok tt
unfolding check_role
RoleFits-check_role path role (staff_path a b) = rw (a, b) refl
RoleFits-check_role path role (worker_path a b c) = rw (a, b, c) refl

check_status-StatusFits :
    (req : Request) (s : TenantStatus) → check_status req s ≡ ok tt → StatusFits req s
unfolding check_status
check_status-StatusFits req trial h = in_trial
check_status-StatusFits req active h = paying
check_status-StatusFits req archived h = cc
check_status-StatusFits req suspended h = elim (Bool-cases (is_mutation req.method)) [
  | inl writes ↦ evidence (ground arith)
  | inr reads ↦ reading reads
]

StatusFits-check_status :
    (req : Request) (s : TenantStatus) → StatusFits req s → check_status req s ≡ ok tt
unfolding check_status
StatusFits-check_status req trial in_trial = refl
StatusFits-check_status req active paying = refl
StatusFits-check_status req archived x = elim x [ ]
StatusFits-check_status req suspended (reading a) = rw a refl
StatusFits-check_status req suspended (evidence a) = ground arith

authorize_principal-ok :
    (fault : Faults) (req : Request) (p : Principal) (db : Store)
    → authorize_principal fault req p db ≡ ok tt
    → (check_role req.path p.role ≡ ok tt)
      × ((s : TenantStatus) × ((get_tenant_status p.tenant_id db.tenants ≡ some s)
            × (check_status req s ≡ ok tt)))
authorize_principal-ok fault req p db h =
    elim (Option-cases (get_tenant_status p.tenant_id db.tenants)) [
      | inl none' ↦ absurd (ground arith)
      | inr (s, f) ↦ (ground arith, (s, (f, ground arith)))
    ]

ok-authorize_principal :
    (fault : Faults) (req : Request) (p : Principal) (db : Store) (s : TenantStatus)
    → fault.tenant_status ≡ false
    → check_role req.path p.role ≡ ok tt
    → get_tenant_status p.tenant_id db.tenants ≡ some s
    → check_status req s ≡ ok tt
    → authorize_principal fault req p db ≡ ok tt
ok-authorize_principal fault req p db s up role found status = ground arith

-- What the gate asks of a principal.
pub record MayCall (req : Request) (p : Principal) (db : Store) : Type 0 where
  pub role_fits : RoleFits req.path p.role
  pub status : TenantStatus
  pub found : get_tenant_status p.tenant_id db.tenants ≡ some status
  pub status_fits : StatusFits req status

pub authorize-MayCall :
    (fault : Faults) (req : Request) (p : Principal) (db : Store)
    → req.is_public ≡ false
    → authorize fault req (some p) db ≡ ok tt
    → MayCall req p db
unfolding authorize
authorize-MayCall fault req p db private h =
    let (role, (s, (found, status))) = authorize_principal-ok fault req p db (ground arith) in
    record {
      role_fits = check_role-RoleFits req.path p.role role;
      status = s;
      found = found;
      status_fits = check_status-StatusFits req s status;
    }

-- A principal passes `Authorize` on an operation that is not public, where no statement fails,
-- exactly if its role fits the path, its tenant exists and the tenant's status permits the
-- request.
pub authorize_iff :
    (fault : Faults) (req : Request) (p : Principal) (db : Store)
    → req.is_public ≡ false
    → fault.tenant_status ≡ false
    → (authorize fault req (some p) db ≡ ok tt) ↔ MayCall req p db
unfolding authorize check_status
authorize_iff fault req p db private up = (
  authorize-MayCall fault req p db private,
  λ m. rw private (
      ok-authorize_principal fault req p db m.status up
        (RoleFits-check_role req.path p.role m.role_fits) m.found
        (StatusFits-check_status req m.status m.status_fits)),
)

authenticate-resolve :
    (lib : TokenLibrary) (fault : Faults) (req : Request) (db : Store) (q : Option Principal)
    → req.is_public ≡ false
    → authenticate lib fault req db ≡ ok q
    → (p : Principal) × ((q ≡ some p) × (resolve lib fault (bearer req.authorization) db ≡ some p))
unfolding authenticate
authenticate-resolve lib fault req db q private h =
    elim (Option-cases (resolve lib fault (bearer req.authorization) db)) [
      | inl none' ↦ absurd (ground arith)
      | inr (p, f) ↦ (p, (ground arith, f))
    ]

module _ {Bucket : Type 0} (new_limiter : Limit → Bucket) (take_token : Bucket → ℕ → Bucket × Bool)
    (uuid_string : ℕ → Bytes) (lib : TokenLibrary) where
  admit_principal-authorize :
      (fault : Faults) (req : Request) (now : ℕ) (db : Store) (p q : Option Principal)
      (rl : RateLimiter Bucket)
      → (admit_principal new_limiter take_token uuid_string lib fault req now db p rl).1 ≡ ok q
      → (q ≡ p) × (authorize fault req p db ≡ ok tt)
  unfolding admit_principal
  admit_principal-authorize fault req now db p q rl h =
      elim (Result-cases (authorize fault req p db)) [
        | inr (e, f) ↦ absurd (ground arith)
        | inl (u, f) ↦ (ground arith, ground arith)
      ]

  -- The handler of an operation that is not public runs only with the principal that the bearer
  -- token names, whose role fits the path and whose tenant exists in a status that permits the
  -- request: whatever the limiters, the clock, the statements that fail and the header are.
  pub serve_sound :
      (fault : Faults) (req : Request) (ip : Bytes) (now : ℕ) (db : Store) (rl : RateLimiter Bucket)
      (q : Option Principal)
      → req.is_public ≡ false
      → (serve new_limiter take_token uuid_string lib fault req ip now db rl).1 ≡ ok q
      → (p : Principal) × ((q ≡ some p)
          × ((resolve lib fault (bearer req.authorization) db ≡ some p) × MayCall req p db))
  unfolding serve
  serve_sound fault req ip now db rl q private h =
      elim (Result-cases (authenticate lib fault req db)) [
        | inr (e, f) ↦ absurd (ground arith)
        | inl (q', f) ↦
            let (p, (named, resolved)) = authenticate-resolve lib fault req db q' private f in
            let (same, passed) =
              admit_principal-authorize fault req now db q' q
                (limit_by_ip new_limiter take_token req.path ip now rl).0 (ground arith) in
            (
              p,
              (
                same ∙ named,
                (
                  resolved,
                  authorize-MayCall fault req p db private
                      (subst (λ o. authorize fault req o db ≡ ok tt) named passed),
                ),
              ),
            )
      ]
