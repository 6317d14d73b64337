-- ===== src/RateLimit/Budget.antt =====
-- The tokens of one bucket over time. Tokens are counted exactly, where framework/rate_limit.py
-- counts in floats.
use json_api_forge.Prelude.{ℕ, List, [], Result, ok, err, ◌+◌, ◌≤◌, ◌∷◌}
use json_api_forge.RateLimit.Memory.{Bucket, Policy, refilled, take_token}

module _ (unit idle : ℕ) (p : Policy) where
  -- One request to a bucket.
  abbrev pub request : ℕ → Bucket → Result (Unit {0}) × Bucket
  request now b = take_token unit p (refilled unit idle p now b)

  abbrev pub granted : Result (Unit {0}) → ℕ
  granted (ok u) = 1
  granted (err e) = 0

  -- Requests at the given times, first to last: how many were let through, and the bucket then.
  pub serve : List ℕ → Bucket → ℕ × Bucket
  serve [] b = (0, b)
  serve (now ∷ times) b =
      let (r, b') = request now b in let (n, last) = serve times b' in (granted r + n, last)

  -- Times that never go back, from `start` to `end`.
  abbrev pub IsOrdered : ℕ → List ℕ → ℕ → Type 0
  IsOrdered start [] end = start ≤ end
  IsOrdered start (now ∷ times) end = (start ≤ now) × IsOrdered now times end
