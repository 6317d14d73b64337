-- ===== src/Tests/RateLimit.antt =====
-- framework/rate_limit.py: two requests per second, with a token of 2^9 * 10^9 parts.
use json_api_forge.Prelude.{ℕ, String, none, List, [], ◌∷◌, string_eq}
use json_api_forge.RateLimit.Memory
use json_api_forge.RateLimit.Memory.{
  Bucket, Policy, ceil_div, capacity, safe_idle, fresh, refilled, retry_after, take_token, check,
}
use json_api_forge.RateLimit.Capacity.{IsBounded, init-IsBounded, check-IsBounded}

abbrev token : ℕ
token = 1000000000

abbrev policy : Policy
policy = record { limit = 2; window_seconds = 1; burst = none }

abbrev full : Bucket
full = record { tokens = 2000000000; updated = 0; last_seen = 0; safe_expire_at = 60000000000 }

abbrev times : List ℕ
times = 1 ∷ 2 ∷ 3 ∷ []

abbrev digest : Policy → String
digest p = "policy"

check-IsBounded_example : IsBounded (check token digest "ann" policy 5 (Memory.init 100 60 10 0)).1
check-IsBounded_example =
    check-IsBounded token digest "ann" policy 5 (Memory.init 100 60 10 0)
      (init-IsBounded 100 60 10 0)
