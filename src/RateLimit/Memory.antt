-- ===== src/RateLimit/Memory.antt =====
-- framework/rate_limit.py: Bucket and MemoryRateLimiter. Python's floats are modelled as exact numbers,
-- so their rounding, which can leave a bucket a little short of a token or of its capacity at the very
-- end of a wait, is not: a token is `unit` parts, where `unit` makes every refill a whole number of
-- parts for each tick of the clock (`unit` is a multiple of each policy's window in ticks). A time that
-- the code computes by a division and then compares with the clock is rounded up to the next tick.
use json_api_forge.Prelude.{
  ℕ, zero, suc, min, max, String, not, Option, none, some, [], ltb, leb, nat_beq, length, keep,
  http, Result, ok, err, zero_division, ◌+◌, ◌-◌, ◌*◌, ◌/◌, ◌&&◌, if◌then◌else◌, string_eq,
}
use json_api_forge.Prelude.Clock.{second}
use json_api_forge.Prelude.Dict.{Dict, lookup, assign}

pub record Bucket : Type 0 where
  pub tokens : ℕ
  pub updated : ℕ
  pub last_seen : ℕ
  pub safe_expire_at : ℕ

-- The arguments `limit`, `window_seconds` and `burst` of `check`.
pub record Policy : Type 0 where
  pub limit : ℕ
  pub window_seconds : ℕ
  pub burst : Option ℕ

pub record MemoryRateLimiter : Type 0 where
  pub max_buckets : ℕ
  pub idle_ttl_seconds : ℕ
  pub cleanup_interval_seconds : ℕ
  pub buckets : Dict String Bucket
  pub overflow_buckets : Dict String Bucket
  pub next_cleanup : ℕ

unfoldable pub init : ℕ → ℕ → ℕ → ℕ → MemoryRateLimiter
init max_buckets idle_ttl_seconds cleanup_interval_seconds now = record {
  max_buckets = max 100 max_buckets;
  idle_ttl_seconds = max 10 idle_ttl_seconds;
  cleanup_interval_seconds = max 1 cleanup_interval_seconds;
  buckets = [];
  overflow_buckets = [];
  next_cleanup = now + max 1 cleanup_interval_seconds * second;
}

unfoldable pub cleanup_locked : ℕ → MemoryRateLimiter → MemoryRateLimiter
cleanup_locked now s =
    if ltb now s.next_cleanup && leb (length s.buckets) s.max_buckets then s else record s {
      buckets = keep (λ e. not (leb e.1.safe_expire_at now)) s.buckets;
      next_cleanup = now + s.cleanup_interval_seconds * second;
    }

-- `burst or limit`, where 0 and None are both false
abbrev pub burst_or_limit : Option ℕ → ℕ → ℕ
burst_or_limit none limit = limit
burst_or_limit (some zero) limit = limit
burst_or_limit (some (suc b)) limit = suc b

unfoldable pub ceil_div : ℕ → ℕ → ℕ
ceil_div a b = (a + b - 1) / b

module _ (unit : ℕ) where
  unfoldable pub capacity : Policy → ℕ
  capacity p = burst_or_limit p.burst p.limit * unit

  unfoldable pub refill : Policy → ℕ
  refill p = p.limit * unit / (max p.window_seconds 1 * second)

  unfoldable pub safe_idle : ℕ → Policy → ℕ
  safe_idle idle_ttl_seconds p = max (idle_ttl_seconds * second) (ceil_div (capacity p) (refill p))

  -- Bucket(capacity, now, now, now + safe_idle)
  unfoldable pub fresh : ℕ → Policy → ℕ → Bucket
  fresh idle_ttl_seconds p now = record {
    tokens = capacity p;
    updated = now;
    last_seen = now;
    safe_expire_at = now + safe_idle idle_ttl_seconds p;
  }

  unfoldable pub refilled : ℕ → Policy → ℕ → Bucket → Bucket
  refilled idle_ttl_seconds p now b = record {
    tokens = min (capacity p) (b.tokens + (now - b.updated) * refill p);
    updated = now;
    last_seen = now;
    safe_expire_at = now + safe_idle idle_ttl_seconds p;
  }

  unfoldable pub retry_after : Policy → Bucket → ℕ
  retry_after p b = max 1 (ceil_div (unit - b.tokens) (refill p * second))

  -- The end of `check`: a whole token is taken, or the request is refused.
  unfoldable pub take_token : Policy → Bucket → Result (Unit {0}) × Bucket
  take_token p b =
      if ltb b.tokens unit
      then (err (http 429 "Rate limit exceeded" (some (retry_after p b))), b)
      else (ok tt, record b { tokens = b.tokens - unit })

-- Which dict the request's bucket is in, and under which key.
pub data Slot : Type 0 where
  own : String → Slot
  overflow : String → Slot

abbrev pub or_else : Option Bucket → Bucket → Bucket
or_else none b = b
or_else (some a) b = a

-- `overflow` was set: `key` is the policy's digest, `found` what that key holds.
unfoldable pub overflow_slot : String → Option Bucket → Bucket → MemoryRateLimiter → Slot × Bucket
overflow_slot key (some b) new s = (overflow key, b)
overflow_slot key none new s =
    if leb 128 (length s.overflow_buckets)
    then (overflow "shared", or_else (lookup "shared" s.overflow_buckets) new)
    else (overflow key, new)

unfoldable pub own_slot :
    String → String → Option Bucket → Bucket → MemoryRateLimiter → Slot × Bucket
unfolding overflow_slot
own_slot identity key (some b) new s = (own identity, b)
own_slot identity key none new s =
    if leb s.max_buckets (length s.buckets)
    then overflow_slot key (lookup key s.overflow_buckets) new s
    else (own identity, new)

unfoldable pub store : Slot → Bucket → MemoryRateLimiter → MemoryRateLimiter
store (own k) b s = record s { buckets = assign k b s.buckets }
store (overflow k) b s = record s { overflow_buckets = assign k b s.overflow_buckets }

-- `digest` is the hexadecimal SHA-256 of the policy, cut to 16 characters.
module _ (unit : ℕ) (digest : Policy → String) where
  unfoldable pub spend :
      Policy → ℕ → Slot × Bucket → MemoryRateLimiter → Result (Unit {0}) × MemoryRateLimiter
  spend p now (slot, b) s =
      let (r, b') = take_token unit p (refilled unit s.idle_ttl_seconds p now b) in
      (r, store slot b' s)

  unfoldable pub slot_for : String → Policy → ℕ → MemoryRateLimiter → Slot × Bucket
  unfolding own_slot
  slot_for identity p now s =
      own_slot identity (digest p) (lookup identity s.buckets) (fresh unit s.idle_ttl_seconds p now)
        s

  unfoldable pub check :
      String → Policy → ℕ → MemoryRateLimiter → Result (Unit {0}) × MemoryRateLimiter
  unfolding spend slot_for
  check identity p now s =
      let s' = cleanup_locked now s in
      if nat_beq p.limit 0
      then (err zero_division, s)
      else spend p now (slot_for identity p now s') s'

unfoldable pub close : MemoryRateLimiter → MemoryRateLimiter
close s = record s { buckets = []; overflow_buckets = [] }
