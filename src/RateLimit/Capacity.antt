-- ===== src/RateLimit/Capacity.antt =====
-- The limiter's memory is bounded, whatever identities it is asked about.
use json_api_forge.Prelude.{
  ℕ, String, refl, sym, subst, inl, inr, not, Option, none, some, arith, ltb, leb, nat_beq,
  Bool-cases, beq_refl, length, length-keep-le, ◌≤◌, ◌<◌, ◌≡◌, ◌∙◌, ◌⊎◌, ◌&&◌, ◌==◌, string_eq,
}
use json_api_forge.Prelude.Dict
use json_api_forge.Prelude.Dict.{Dict, lookup}
use json_api_forge.RateLimit.Memory
use json_api_forge.RateLimit.Memory.{
  Bucket, Policy, MemoryRateLimiter, Slot, own, overflow, cleanup_locked, store, spend, slot_for,
  check,
}

abbrev Present : String → Dict String Bucket → Type 0
Present k d = (b : Bucket) × (lookup k d ≡ some b)

-- 128 overflow buckets, and one more for the requests that they have no room for.
abbrev OverflowFits : Dict String Bucket → Type 0
OverflowFits d = (length d ≤ 128) ⊎ (length d ≤ 129) × Present "shared" d

pub record IsBounded (s : MemoryRateLimiter) : Type 0 where
  pub main_le : length s.buckets ≤ s.max_buckets
  pub overflow_le : OverflowFits s.overflow_buckets

pub init-IsBounded : (m i c now : ℕ) → IsBounded (Memory.init m i c now)
unfolding Memory.init
init-IsBounded m i c now = record { main_le = omega arith; overflow_le = inl (omega arith) }

cleanup-IsBounded :
    (now : ℕ) (s : MemoryRateLimiter) → IsBounded s → IsBounded (cleanup_locked now s)
unfolding cleanup_locked
cleanup-IsBounded now s v =
    elim (Bool-cases (ltb now s.next_cleanup && leb (length s.buckets) s.max_buckets)) [
      | inl skip ↦ rw skip v
      | inr due ↦ rw due (record {
        main_le = omega (
          arith,
          length-keep-le (λ (e : String × Bucket). not (leb e.1.safe_expire_at now)) s.buckets,
          v.main_le,
        );
        overflow_le = v.overflow_le;
      })
    ]

Present-assign :
    (k j : String) (b : Bucket) (d : Dict String Bucket)
    → Present j d
    → Present j (Dict.assign k b d)
Present-assign k j b d (c, found) = elim (Bool-cases (k == j)) [
  | inl same ↦ (b, Dict.lookup-assign k j b d ∙ rw same)
  | inr other ↦ (c, Dict.lookup-assign k j b d ∙ rw other found)
]

Present-assign_self :
    (k : String) (b : Bucket) (d : Dict String Bucket) → Present k (Dict.assign k b d)
Present-assign_self k b d = (b, Dict.lookup-assign k k b d ∙ simp beq_refl)

-- What a slot may be for the dicts to stay within their bounds.
abbrev Fits : MemoryRateLimiter → Slot → Type 0
Fits s (own k) = (length s.buckets < s.max_buckets) ⊎ Present k s.buckets
Fits s (overflow k) =
    (length s.overflow_buckets < 128) ⊎ Present k s.overflow_buckets ⊎ (k ≡ "shared")

overflow_fits :
    (k : String) (b : Bucket) (d : Dict String Bucket)
    → OverflowFits d
    → (length d < 128) ⊎ Present k d ⊎ (k ≡ "shared")
    → OverflowFits (Dict.assign k b d)
overflow_fits k b d v (inl room) = inl (omega (arith, Dict.length-assign-le k b d))
overflow_fits k b d (inl few) (inr (inl (c, old))) =
    inl (rw (Dict.length-assign_present k b c d old) few)
overflow_fits k b d (inr (few, shared)) (inr (inl (c, old))) =
    inr (rw (Dict.length-assign_present k b c d old) few, Present-assign k "shared" b d shared)
overflow_fits k b d (inl few) (inr (inr e)) = inr (
  omega (arith, Dict.length-assign-le k b d),
  subst (λ (j : String). Present j (Dict.assign k b d)) e (Present-assign_self k b d),
)
overflow_fits k b d (inr (few, (c, old))) (inr (inr e)) = inr (
  rw (Dict.length-assign_present k b c d (subst (λ (j : String). lookup j d ≡ some c) (sym e) old))
      few,
  Present-assign k "shared" b d (c, old),
)

store-IsBounded :
    (slot : Slot) (b : Bucket) (s : MemoryRateLimiter)
    → IsBounded s
    → Fits s slot
    → IsBounded (store slot b s)
unfolding store
store-IsBounded (own k) b s v (inl room) = record {
  main_le = omega (arith, Dict.length-assign-le k b s.buckets);
  overflow_le = v.overflow_le;
}
store-IsBounded (own k) b s v (inr (c, old)) = record {
  main_le = rw (Dict.length-assign_present k b c s.buckets old) v.main_le;
  overflow_le = v.overflow_le;
}
store-IsBounded (overflow k) b s v fit = record {
  main_le = v.main_le;
  overflow_le = overflow_fits k b s.overflow_buckets v.overflow_le fit;
}

overflow_slot_lem :
    (key : String) (new : Bucket) (s : MemoryRateLimiter) (found : Option Bucket)
    → lookup key s.overflow_buckets ≡ found
    → Fits s (Memory.overflow_slot key found new s).0
unfolding Memory.overflow_slot
overflow_slot_lem key new s (some b) e = inr (inl (b, e))
overflow_slot_lem key new s none e = elim (Bool-cases (leb 128 (length s.overflow_buckets))) [
  | inl full ↦ rw full (inr (inr refl))
  | inr room ↦ rw room (inl (ground arith))
]

own_slot_lem :
    (identity key : String) (new : Bucket) (s : MemoryRateLimiter) (found : Option Bucket)
    → lookup identity s.buckets ≡ found
    → Fits s (Memory.own_slot identity key found new s).0
unfolding Memory.own_slot
own_slot_lem identity key new s (some b) e = inr (b, e)
own_slot_lem identity key new s none e = elim (Bool-cases (leb s.max_buckets (length s.buckets))) [
  | inl full ↦ rw full (overflow_slot_lem key new s (lookup key s.overflow_buckets) refl)
  | inr room ↦ rw room (inl (ground arith))
]

module _ (unit : ℕ) (digest : Policy → String) where
  slot_for_lem :
      (identity : String) (p : Policy) (now : ℕ) (s : MemoryRateLimiter)
      → Fits s (slot_for unit digest identity p now s).0
  unfolding slot_for
  slot_for_lem identity p now s =
      own_slot_lem identity (digest p) _ s (lookup identity s.buckets) refl

  spend-IsBounded :
      (p : Policy) (now : ℕ) (sb : Slot × Bucket) (s : MemoryRateLimiter)
      → IsBounded s
      → Fits s sb.0
      → IsBounded (spend unit digest p now sb s).1
  unfolding spend
  spend-IsBounded p now (slot, b) s v fit = store-IsBounded slot _ s v fit

  -- In a bounded limiter every request, let through or not, leaves at most `max_buckets` buckets of identities and at
  -- most 129 overflow buckets.
  pub check-IsBounded :
      (identity : String) (p : Policy) (now : ℕ) (s : MemoryRateLimiter)
      → IsBounded s
      → IsBounded (check unit digest identity p now s).1
  unfolding check
  check-IsBounded identity p now s v = elim (Bool-cases (nat_beq p.limit 0)) [
    | inl off ↦ rw off v
    | inr on ↦ rw on (
        spend-IsBounded p now _ (cleanup_locked now s) (cleanup-IsBounded now s v)
          (slot_for_lem identity p now (cleanup_locked now s)))
  ]
