-- ===== src/RateLimit/Bounds.antt =====
-- The map of buckets is bounded (`allow` and `sweep` of auth/ratelimit.go).
use sdano.Base.{
  ℕ, ◌≤◌, ◌<◌, Bool, ◌≡◌, refl, ◌∙◌, ap, sym, subst, List, [], ◌∷◌, leb, length, length-append,
  Option-cases, Bool-cases, inl, inr, arith,
}
use sdano.Base.Bytes.{Bytes, bytes_eq_sound}
use sdano.Base.Table.{select_one, matching, insert}
use sdano.Base.Table.Counts.{
  length-delete-le, length-update, matching-delete-le, matching-update, matching-insert,
  matching-none,
}
use sdano.RateLimit.{
  Limit, RateLimitConfig, Entry, RateLimiter, has_key, is_idle, sweep, touch, create, allow,
  new_rate_limiter, default_max_buckets,
}

-- One call of `allow`.
pub record Request : Type 0 where
  pub key : Bytes
  pub limit : Limit
  pub now : ℕ

module _ {Bucket : Type 0} (new_limiter : Limit → Bucket)
    (take_token : Bucket → ℕ → Bucket × Bool) where
  pub allow_all : List Request → RateLimiter Bucket → RateLimiter Bucket
  allow_all [] rl = rl
  allow_all (q ∷ qs) rl = allow_all qs (allow new_limiter take_token q.key q.limit q.now rl).0

  -- No more buckets than the cap, and one to a key.
  pub record Bounded (rl : RateLimiter Bucket) : Type 0 where
    pub capped : length rl.buckets ≤ rl.max_buckets
    pub keyed : (k : Bytes) → matching (has_key k) rl.buckets ≤ 1

  sweep-Bounded :
      (now : ℕ) (rl : RateLimiter Bucket)
      → Bounded rl
      → Bounded (sweep now rl) × ((sweep now rl).max_buckets ≡ rl.max_buckets)
  unfolding sweep
  sweep-Bounded now rl b = (
    record {
      capped = ground (arith, length-delete-le (is_idle now) rl.buckets);
      keyed =
          λ k. ground (arith, b.keyed k, matching-delete-le (has_key k) (is_idle now) rl.buckets);
    },
    ground arith,
  )

  sweep-matching :
      (now : ℕ) (k : Bytes) (rl : RateLimiter Bucket)
      → matching (has_key k) (sweep now rl).buckets ≤ matching (has_key k) rl.buckets
  unfolding sweep
  sweep-matching now k rl = ground (arith, matching-delete-le (has_key k) (is_idle now) rl.buckets)

  touch-Bounded :
      (now : ℕ) (e : Entry Bucket) (rl : RateLimiter Bucket)
      → Bounded rl
      → Bounded (touch new_limiter take_token now e rl).0
        × ((touch new_limiter take_token now e rl).0.max_buckets ≡ rl.max_buckets)
  unfolding touch
  touch-Bounded now e rl b = (
    record {
      capped = rw length-update b.capped;
      keyed = λ k.
          subst (λ n. n ≤ 1)
            (sym (matching-update (has_key k) (has_key e.key) renew rl.buckets (λ r. refl)))
            (b.keyed k);
    },
    refl,
  )
    where
      renew : Entry Bucket → Entry Bucket
      renew r = record r { lim = (take_token e.lim now).0; last_seen = now }

  -- A bucket for a key that has none, below the cap.
  insert-Bounded :
      (e : Entry Bucket) (rl : RateLimiter Bucket)
      → Bounded rl
      → matching (has_key e.key) rl.buckets ≡ 0
      → length rl.buckets < rl.max_buckets
      → Bounded (record rl { buckets = insert e rl.buckets })
  insert-Bounded e rl b new' room = record {
    capped = omega (arith, length-append rl.buckets (e ∷ []));
    keyed = λ k. elim (Bool-cases (has_key k e)) [
      | inr other ↦ rw (matching-insert (has_key k) e rl.buckets, other) (omega (arith, b.keyed k))
      | inl same ↦
          rw (matching-insert (has_key k) e rl.buckets, same)
            (omega (arith, ap (λ j. matching (has_key j) rl.buckets) (bytes_eq_sound e.key k same)))
    ];
  }

  allow-Bounded :
      (key : Bytes) (l : Limit) (now : ℕ) (rl : RateLimiter Bucket)
      → Bounded rl
      → Bounded (allow new_limiter take_token key l now rl).0
        × ((allow new_limiter take_token key l now rl).0.max_buckets ≡ rl.max_buckets)
  unfolding allow create
  allow-Bounded key l now rl b = elim (Option-cases (select_one (has_key key) rl.buckets)) [
    | inr (e, f) ↦ rw (f, allow) (touch-Bounded now e rl b)
    | inl n ↦ elim (Bool-cases (leb (sweep now rl).max_buckets (length (sweep now rl).buckets))) [
      | inl full ↦ rw (n, allow, full) (sweep-Bounded now rl b)
      | inr room ↦
          let (swept, same) = sweep-Bounded now rl b in
          let fresh : Entry Bucket = record { key = key; lim = new_limiter l; last_seen = 0 } in
          let inserted =
            insert-Bounded fresh (sweep now rl) swept
              (omega (arith, sweep-matching now key rl, matching-none (has_key key) rl.buckets n))
              (ground arith) in
          let (kept, same') = touch-Bounded now fresh _ inserted in
          rw (n, allow, room) (kept, same' ∙ same)
    ]
  ]

  allow_all-Bounded :
      (qs : List Request) (rl : RateLimiter Bucket)
      → Bounded rl
      → Bounded (allow_all qs rl) × ((allow_all qs rl).max_buckets ≡ rl.max_buckets)
  unfolding allow_all
  allow_all-Bounded [] rl b = (b, refl)
  allow_all-Bounded (q ∷ qs) rl b =
      let (b', same) = allow-Bounded q.key q.limit q.now rl b in
      let (b'', same') = allow_all-Bounded qs _ b' in (b'', same' ∙ same)

  new-Bounded : (cfg : RateLimitConfig) → Bounded (new_rate_limiter cfg)
  unfolding new_rate_limiter matching
  new-Bounded cfg = record { capped = omega arith; keyed = λ k. omega arith }

  -- Whatever requests come, at whatever times, a new limiter tracks at most `default_max_buckets`
  -- buckets, and at most one to a key.
  pub tracked_buckets :
      (cfg : RateLimitConfig) (qs : List Request)
      → (length (allow_all qs (new_rate_limiter cfg)).buckets ≤ default_max_buckets)
        × ((k : Bytes) → matching (has_key k) (allow_all qs (new_rate_limiter cfg)).buckets ≤ 1)
  unfolding new_rate_limiter
  tracked_buckets cfg qs =
      let start : Bounded (new_rate_limiter cfg) = new-Bounded cfg in
      let (bounded, same) = allow_all-Bounded qs (new_rate_limiter cfg) start in
      (omega (arith, bounded.capped, same), bounded.keyed)
