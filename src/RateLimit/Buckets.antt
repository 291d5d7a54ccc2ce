-- ===== src/RateLimit/Buckets.antt =====
-- What a request does to the buckets of other keys (`allow` and `sweep` of auth/ratelimit.go).
use sdano.Base.{
  ℕ, ◌-◌, ◌≤◌, ◌<◌, Bool, false, ◌≡◌, refl, ◌∙◌, ◌⊎◌, none, some, List, leb, length, Option-cases,
  Bool-cases, inl, inr, arith,
}
use sdano.Base.Bytes.{Bytes, bytes_eq, bytes_eq_apart, bytes_eq_sound}
use sdano.Base.Table.{select_one, matching, insert}
use sdano.Base.Table.Laws.{
  row-delete, select_one-insert_other, select_one_fits, select_one-update_other,
}
use sdano.Base.Table.Counts.{only_row-delete}
use sdano.RateLimit.{
  Limit, Entry, RateLimiter, has_key, is_idle, idle_bucket_ttl, sweep, touch, create, allow,
}

module _ {Bucket : Type 0} (k : Bytes) (e : Entry Bucket) where
  -- The bucket is as it was, or was idle for longer than the TTL and is gone.
  abbrev pub KeptOrIdle : ℕ → List (Entry Bucket) → Type 0
  KeptOrIdle now t =
      (select_one (has_key k) t ≡ some e)
      ⊎ ((select_one (has_key k) t ≡ none) × (idle_bucket_ttl < now - e.last_seen))

  sweep-KeptOrIdle :
      (now : ℕ) (rl : RateLimiter Bucket)
      → select_one (has_key k) rl.buckets ≡ some e
      → matching (has_key k) rl.buckets ≤ 1
      → KeptOrIdle now (sweep now rl).buckets
  unfolding sweep
  sweep-KeptOrIdle now rl h m = ground (
    arith,
    row-delete (has_key k) (is_idle now) rl.buckets e h,
    only_row-delete (has_key k) (is_idle now) rl.buckets e h m,
  )

  module _ (new_limiter : Limit → Bucket) (take_token : Bucket → ℕ → Bucket × Bool) where
    touch-other :
        (now : ℕ) (b : Entry Bucket) (rl : RateLimiter Bucket)
        → bytes_eq b.key k ≡ false
        → select_one (has_key k) (touch new_limiter take_token now b rl).0.buckets
          ≡ select_one (has_key k) rl.buckets
    unfolding touch
    touch-other now b rl h =
        select_one-update_other (has_key k) (has_key b.key) _ rl.buckets (λ r. refl)
          (λ r q. bytes_eq_apart r.key k b.key q h)

    create-other :
        (key : Bytes) (l : Limit) (now : ℕ) (rl : RateLimiter Bucket)
        → bytes_eq key k ≡ false
        → select_one (has_key k) (create new_limiter take_token key l now rl).0.buckets
          ≡ select_one (has_key k) rl.buckets
    unfolding create
    create-other key l now rl h =
        let fresh : Entry Bucket = record { key = key; lim = new_limiter l; last_seen = 0 } in
        touch-other now fresh (record rl { buckets = insert fresh rl.buckets }) h
        ∙ select_one-insert_other (has_key k) fresh rl.buckets h

    -- A request of another key leaves a client's bucket as it is, except that it may drop one that
    -- was idle for longer than the TTL. The client has one bucket at most.
    other_bucket :
        (key : Bytes) (l : Limit) (now : ℕ) (rl : RateLimiter Bucket)
        → bytes_eq key k ≡ false
        → select_one (has_key k) rl.buckets ≡ some e
        → matching (has_key k) rl.buckets ≤ 1
        → KeptOrIdle now (allow new_limiter take_token key l now rl).0.buckets
    unfolding allow
    other_bucket key l now rl n h m = elim (Option-cases (select_one (has_key key) rl.buckets)) [
      | inr (b, f) ↦
          let same : b.key ≡ key =
            bytes_eq_sound b.key key (select_one_fits (has_key key) rl.buckets f) in
          rw (f, allow) (inl (touch-other now b rl (rw same n) ∙ h))
      | inl none' ↦
          let swept = sweep-KeptOrIdle now rl h m in
          elim (Bool-cases (leb (sweep now rl).max_buckets (length (sweep now rl).buckets))) [
            | inl full ↦ rw (none', allow, full) swept
            | inr room ↦ rw (none', allow, room, create-other key l now (sweep now rl) n) swept
          ]
    ]
