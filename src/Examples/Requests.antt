-- ===== src/Examples/Requests.antt =====
-- Requests that pass the limiter and the gate (auth/ratelimit.go, auth/middleware.go).
use sdano.Base.{
  ℕ, ◌-◌, ◌≤◌, Bool, true, false, ◌≡◌, ◌↔◌, refl, some, List, [], ◌∷◌, ◌==◌, ok, length,
  if◌then◌else◌,
}
use sdano.Base.Bytes.{Bytes, codes, bytes_eq, has_prefix, count, equal_fold, to_lower}
use sdano.Base.Table.{select_one, update, delete, matching}
use sdano.Store.{manager}
use sdano.Queries.Auth.{get_tenant, get_tenant_status}
use sdano.Session.{Principal}
use sdano.RateLimit.{
  RateLimitConfig, Limit, RateLimiter, new_rate_limiter, default_max_buckets, has_key, sweep,
  class_of, principal_key, touch, create, allow, limit_by_ip, limit_by_principal,
}
use sdano.RateLimit.Bounds as Bounds
use sdano.RateLimit.Bounds.{allow_all, tracked_buckets}
use sdano.Middleware.{
  TokenLibrary, Faults, Request, bearer, parse_access_token, resolve, authenticate, check_role,
  check_status, authorize, admit_principal, serve,
}
use sdano.Middleware.Gate.{MayCall, authorize_iff, serve_sound}
use sdano.Examples.Office.{office}

-- A bucket is the number of its tokens, and none comes back.
abbrev new_limiter : Limit → ℕ
new_limiter l = l.burst

abbrev take_token : ℕ → ℕ → ℕ × Bool
take_token b now = if b == 0 then (b, false) else (b - 1, true)

abbrev config : RateLimitConfig
config = record {
  auth_per_min = 5;
  healthz_per_min = 60;
  ip_ceiling_per_min = 600;
  principal_per_min = 300;
}

abbrev limiter : RateLimiter ℕ
limiter = record {
  auth = record { rate = 5; burst = 5 };
  healthz = record { rate = 60; burst = 60 };
  ip_ceiling = record { rate = 600; burst = 600 };
  principal = record { rate = 300; burst = 300 };
  buckets = record { key = codes "g:1"; lim = 3; last_seen = 5 } ∷ [];
  max_buckets = 10;
  last_sweep = 0;
}

abbrev first_requests : List Bounds.Request
first_requests =
    record { key = codes "a:1"; limit = record { rate = 5; burst = 5 }; now = 1 }
    ∷ record { key = codes "g:1"; limit = record { rate = 5; burst = 5 }; now = 2 }
    ∷ []

tracked_buckets_example :
    (length (allow_all new_limiter take_token first_requests (new_rate_limiter config)).buckets
      ≤ default_max_buckets)
    × ((k : Bytes)
        → matching
            (has_key k)
            (allow_all new_limiter take_token first_requests (new_rate_limiter config)).buckets
          ≤ 1)
tracked_buckets_example = tracked_buckets new_limiter take_token config first_requests

abbrev boss_principal : Principal
boss_principal = record { user_id = 6; tenant_id = 1; role = manager }

abbrev uuid_string : ℕ → Bytes
uuid_string n = n ∷ []

-- A token of three parts is signed for the manager.
abbrev tokens : TokenLibrary
tokens = record {
  parse_with_claims =
      λ raw. some (record { subject = codes "123456"; tenant = codes "1"; role = manager });
  parse_uuid = λ s. some (length s);
  hash_opaque_token = λ raw. "hash";
}

abbrev healthy : Faults
healthy = record { device_session = false; tenant_status = false }

abbrev staff_read : Request
staff_read = record {
  path = codes "/api/v1/staff/objects";
  method = codes "GET";
  is_public = false;
  suspended_writable = false;
  authorization = codes "bearer a.b.c";
}

authorize_iff_example :
    (authorize healthy staff_read (some boss_principal) office ≡ ok tt)
    ↔ MayCall staff_read boss_principal office
authorize_iff_example = authorize_iff healthy staff_read boss_principal office refl refl

served :
    (serve new_limiter take_token uuid_string tokens healthy staff_read
      (codes "1")
      6
      office
      limiter).1
    ≡ ok (some boss_principal)
unfolding serve limit_by_ip class_of bytes_eq has_prefix allow select_one update delete sweep touch
    create authenticate bearer equal_fold to_lower count resolve parse_access_token admit_principal
    limit_by_principal principal_key authorize check_role check_status get_tenant get_tenant_status
served = refl

serve_sound_example :
    (p : Principal) × ((some boss_principal ≡ some p)
      × ((resolve tokens healthy (bearer (codes "bearer a.b.c")) office ≡ some p)
          × MayCall staff_read p office))
serve_sound_example =
    serve_sound new_limiter take_token uuid_string tokens healthy staff_read (codes "1") 6 office
      limiter (some boss_principal) refl served
