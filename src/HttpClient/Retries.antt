-- ===== src/HttpClient/Retries.antt =====
-- ResilientHTTPClient.request: how often a request goes out.
use json_api_forge.Prelude.{
  false, ℕ, zero, suc, refl, inl, inr, Bool, Option, none, some, arith, Bool-cases, contains, ◌+◌,
  ◌≤◌, ◌≡◌, ◌⊎◌, ◌||◌, if◌then◌else◌, string_eq, nat_eq,
}
use json_api_forge.Prelude.Text.{Text, text_eq}
use json_api_forge.HttpClient.Circuit.{
  CircuitState, Settings, Outcome, Reply, Step, finish, retry, idempotent_methods, record_failure,
  step, attempts, upper, effective_retries, is_open, half_open, request_state,
}

module _ (s : Settings) (is_success : ℕ → Bool) (send : ℕ → Outcome) (clock : ℕ → ℕ) where
  Step-cases :
      (x : Step)
      → ((r : Reply) × (st : CircuitState) × (x ≡ finish r st)) ⊎ ((r : Reply) × (x ≡ retry r))
  Step-cases (finish r st) = inl (r, st, refl)
  Step-cases (retry r) = inr (r, refl)

  pub attempts-finish :
      (n i : ℕ) (last : Option Reply) (st : CircuitState) (r : Reply) (st' : CircuitState)
      → step is_success (send i) st ≡ finish r st'
      → attempts s is_success send clock (suc n) i last st
        ≡ record { reply = r; state = st'; sent = i + 1 }
  unfolding attempts
  attempts-finish n i last st r st' e = rw (e, attempts)

  pub attempts_retry :
      (n i : ℕ) (last : Option Reply) (st : CircuitState) (r : Reply)
      → step is_success (send i) st ≡ retry r
      → attempts s is_success send clock (suc n) i last st
        ≡ attempts s is_success send clock n (i + 1) (some r) (record_failure s (clock i) st)
  unfolding attempts
  attempts_retry n i last st r e = rw (e, attempts)

  -- `n` attempts from number `i` on end with at most `n` more requests sent, and with one at least.
  attempts_sent :
      (n i : ℕ) (last : Option Reply) (st : CircuitState)
      → ((attempts s is_success send clock n i last st).sent ≤ i + n)
        × (i ≤ (attempts s is_success send clock n i last st).sent)
  attempts_sent zero i last st = unfold attempts in omega arith
  attempts_sent (suc n) i last st = elim (Step-cases (step is_success (send i) st)) [
    | inl (r, st', e) ↦ rw (attempts-finish n i last st r st' e) (omega arith)
    | inr (r, e) ↦
        let rest = attempts_sent n (i + 1) (some r) (record_failure s (clock i) st) in
        rw (attempts_retry n i last st r e) (omega (arith, rest))
  ]

  -- A request goes out at most once more than it may be retried, and at most once if its method, in
  -- whatever case it is written, is not idempotent and the caller did not ask for such retries.
  pub request_state_sent :
      (method : Text) (retries : ℕ) (force : Bool) (now : ℕ) (st : CircuitState)
      → (request_state s is_success send clock method retries force now st).sent
        ≤ (if contains (upper method) idempotent_methods || force then retries + 1 else 1)
  unfolding request_state effective_retries
  request_state_sent method retries force now st = elim (Bool-cases (is_open s now st)) [
    | inl refused ↦ rw refused (ground arith)
    | inr shut ↦ rw shut (
        ground (
          arith,
          attempts_sent (effective_retries (upper method) retries force + 1) 0 none (half_open st),
        ))
  ]

  -- Attempts `i` to `i + n - 1` all fail in a way that is retried.
  abbrev pub AllRetried : ℕ → ℕ → Type 0
  AllRetried zero i = Unit
  AllRetried (suc n) i =
      ((st : CircuitState) → (r : Reply) × (step is_success (send i) st ≡ retry r))
      × AllRetried n (i + 1)

  -- Such attempts all go out.
  attempts_all_sent :
      (n i : ℕ) (last : Option Reply) (st : CircuitState)
      → AllRetried n i
      → (attempts s is_success send clock n i last st).sent ≡ i + n
  attempts_all_sent zero i last st h = unfold attempts in omega arith
  attempts_all_sent (suc n) i last st h =
      let (r, e) = h.0 st in
      let rest = attempts_all_sent n (i + 1) (some r) (record_failure s (clock i) st) h.1 in
      rw (attempts_retry n i last st r e) (omega (arith, rest))

  -- When the circuit is not open and every attempt fails in a way that is retried, a request goes out
  -- exactly once more than it may be retried if its method, in whatever case it is written, is
  -- idempotent or the caller asked for retries all the same, and exactly once if not.
  pub retried_request_sent :
      (method : Text) (retries : ℕ) (force : Bool) (now : ℕ) (st : CircuitState)
      → is_open s now st ≡ false
      → AllRetried (effective_retries (upper method) retries force + 1) 0
      → (request_state s is_success send clock method retries force now st).sent
        ≡ (if contains (upper method) idempotent_methods || force then retries + 1 else 1)
  unfolding request_state
  retried_request_sent method retries force now st shut h =
      let all =
        attempts_all_sent (effective_retries (upper method) retries force + 1) 0 none (half_open st)
          h in
      rw shut (unfold effective_retries in ground (arith, all))
