-- ===== src/RateLimit.antt =====
-- apps/api/internal/auth/ratelimit.go: the two tiers of request throttling. The token bucket is
-- the library's (`golang.org/x/time/rate`): its state `Bucket`, `rate.NewLimiter` and
-- `Limiter.Allow` at an instant are parameters. The map of buckets is a table with the key as its
-- primary key; the clock is an argument. The mutex makes each call of `allow` one step.
pub mod Bounds
pub mod Buckets
pub mod Classes
use sdano.Base.{
  ℕ, ◌+◌, ◌-◌, ◌*◌, Bool, true, false, not, Option, none, some, List, [], ◌∷◌, ◌++◌, ltb, leb,
  if◌then◌else◌, length,
}
use sdano.Base.Bytes.{Bytes, codes, bytes_eq, has_prefix}
use sdano.Base.Table.{select_one, update, delete, insert}
use sdano.Session.{minute, Principal}

-- The budget of a class, per minute.
pub record RateLimitConfig : Type 0 where
  pub auth_per_min : ℕ
  pub healthz_per_min : ℕ
  pub ip_ceiling_per_min : ℕ
  pub principal_per_min : ℕ

-- A rate, in sixtieths of a request per second, and a burst.
pub record Limit : Type 0 where
  pub rate : ℕ
  pub burst : ℕ

unfoldable pub new_limit : ℕ → Limit
new_limit per_min = record { rate = per_min; burst = per_min }

pub record Entry (Bucket : Type 0) : Type 0 where
  pub key : Bytes
  pub lim : Bucket
  pub last_seen : ℕ

pub record RateLimiter (Bucket : Type 0) : Type 0 where
  pub auth : Limit
  pub healthz : Limit
  pub ip_ceiling : Limit
  pub principal : Limit
  pub buckets : List (Entry Bucket)
  pub max_buckets : ℕ
  pub last_sweep : ℕ

abbrev pub idle_bucket_ttl : ℕ
idle_bucket_ttl = 15 * minute

abbrev pub sweep_interval : ℕ
sweep_interval = 5 * minute

abbrev pub default_max_buckets : ℕ
default_max_buckets = 100_000

abbrev pub healthz_path : Bytes
healthz_path = codes "/healthz"

abbrev pub auth_prefix : Bytes
auth_prefix = codes "/api/v1/auth/"

unfoldable pub new_rate_limiter : {Bucket : Type 0} → RateLimitConfig → RateLimiter Bucket
unfolding new_limit
new_rate_limiter cfg = record {
  auth = new_limit cfg.auth_per_min;
  healthz = new_limit cfg.healthz_per_min;
  ip_ceiling = new_limit cfg.ip_ceiling_per_min;
  principal = new_limit cfg.principal_per_min;
  buckets = [];
  max_buckets = default_max_buckets;
  last_sweep = 0;
}

abbrev pub has_key : {Bucket : Type 0} → Bytes → Entry Bucket → Bool
has_key key e = bytes_eq e.key key

-- Durations do not fall below 0 here; a clock that runs backwards gives 0, which both tests treat
-- as they treat a negative duration.
abbrev pub is_idle : {Bucket : Type 0} → ℕ → Entry Bucket → Bool
is_idle now e = ltb idle_bucket_ttl (now - e.last_seen)

unfoldable pub sweep : {Bucket : Type 0} → ℕ → RateLimiter Bucket → RateLimiter Bucket
unfolding delete
sweep now rl =
    if ltb (now - rl.last_sweep) sweep_interval
    then rl
    else record rl { buckets = delete (is_idle now) rl.buckets; last_sweep = now }

-- The key and the budget that the path selects.
unfoldable pub class_of : {Bucket : Type 0} → Bytes → Bytes → RateLimiter Bucket → Bytes × Limit
class_of path ip rl =
    if bytes_eq path healthz_path
    then (codes "h:" ++ ip, rl.healthz)
    else if has_prefix path auth_prefix
    then (codes "a:" ++ ip, rl.auth)
    else (codes "g:" ++ ip, rl.ip_ceiling)

-- `uuid.UUID.String` is the parameter `uuid_string`.
unfoldable pub principal_key : (ℕ → Bytes) → Principal → Bytes
principal_key uuid_string p =
    codes "p:" ++ (uuid_string p.tenant_id ++ (codes ":" ++ uuid_string p.user_id))

module _ {Bucket : Type 0} (new_limiter : Limit → Bucket)
    (take_token : Bucket → ℕ → Bucket × Bool) where
  -- `b.lastSeen = now; return b.lim.Allow()`, on the entry `b` of the map.
  unfoldable pub touch : ℕ → Entry Bucket → RateLimiter Bucket → RateLimiter Bucket × Bool
  unfolding update
  touch now b rl =
      let (lim', admitted) = take_token b.lim now in
      (
        record rl {
          buckets =
              update (has_key b.key) (λ e. record e { lim = lim'; last_seen = now }) rl.buckets;
        },
        admitted,
      )

  unfoldable pub create : Bytes → Limit → ℕ → RateLimiter Bucket → RateLimiter Bucket × Bool
  create key l now rl =
      let b : Entry Bucket = record { key = key; lim = new_limiter l; last_seen = 0 } in
      touch now b (record rl { buckets = insert b rl.buckets })

  unfoldable pub allow : Bytes → Limit → ℕ → RateLimiter Bucket → RateLimiter Bucket × Bool
  unfolding select_one sweep
  allow key l now rl = elim (select_one (has_key key) rl.buckets) [
    | some b ↦ touch now b rl
    | none ↦
        let swept = sweep now rl in
        if leb swept.max_buckets (length swept.buckets)
        then (swept, true)
        else create key l now swept
  ]

  -- The limiter afterwards, and whether `next` runs; otherwise the answer is 429.
  unfoldable pub limit_by_ip : Bytes → Bytes → ℕ → RateLimiter Bucket → RateLimiter Bucket × Bool
  limit_by_ip path ip now rl = let (key, l) = class_of path ip rl in allow key l now rl

  unfoldable pub limit_by_principal :
      (ℕ → Bytes) → Bool → Option Principal → ℕ → RateLimiter Bucket → RateLimiter Bucket × Bool
  limit_by_principal uuid_string is_public none now rl = (rl, true)
  limit_by_principal uuid_string is_public (some p) now rl =
      if is_public then (rl, true) else allow (principal_key uuid_string p) rl.principal now rl
