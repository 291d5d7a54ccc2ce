-- ===== src/RateLimit/Classes.antt =====
-- Which requests share a bucket (`LimitByIP`, `LimitByPrincipal` of auth/ratelimit.go).
use sdano.Base.{ℕ, ◌≡◌, ◌≢◌, if◌then◌else◌, arith}
use sdano.Base.Bytes.{Bytes, bytes_eq, has_prefix}
use sdano.Session.{Principal}
use sdano.RateLimit.{RateLimiter, healthz_path, auth_prefix, class_of, principal_key}

-- The classes of the first tier.
pub data Class : Type 0 where
  health_check auth_attempt other_route : Class

abbrev pub class : Bytes → Class
class path =
    if bytes_eq path healthz_path
    then health_check
    else if has_prefix path auth_prefix
    then auth_attempt
    else other_route

module _ {Bucket : Type 0} where
  -- Two requests of the first tier share a bucket only if they come from the same client address
  -- and fall in the same class.
  shared_bucket :
      (path path' ip ip' : Bytes) (rl rl' : RateLimiter Bucket)
      → (class_of path ip rl).0 ≡ (class_of path' ip' rl').0
      → (ip ≡ ip') × (class path ≡ class path')
  unfolding class_of
  shared_bucket path path' ip ip' rl rl' h = ground arith

  -- No request of the first tier shares a bucket with a principal of the second.
  tiers_apart :
      (path ip : Bytes) (rl : RateLimiter Bucket) (uuid_string : ℕ → Bytes) (p : Principal)
      → (class_of path ip rl).0 ≢ principal_key uuid_string p
  unfolding class_of principal_key
  tiers_apart path ip rl uuid_string p = ground arith

  -- Two requests of the first tier share a bucket only if they come from the same client address
  -- and fall in the same class, and neither shares it with a principal of the second tier.
  buckets_apart :
      (path path' ip ip' : Bytes) (rl rl' : RateLimiter Bucket) (uuid_string : ℕ → Bytes)
      (p : Principal)
      → (class_of path ip rl).0 ≡ (class_of path' ip' rl').0
      → (ip ≡ ip')
        × ((class path ≡ class path') × ((class_of path ip rl).0 ≢ principal_key uuid_string p))
  buckets_apart path path' ip ip' rl rl' uuid_string p h =
      let same = shared_bucket path path' ip ip' rl rl' h in
      (same.0, (same.1, tiers_apart path ip rl uuid_string p))
