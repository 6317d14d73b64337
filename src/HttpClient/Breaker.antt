-- ===== src/HttpClient/Breaker.antt =====
-- ResilientHTTPClient.request: when the circuit of a host opens, and what it refuses.
use json_api_forge.Prelude.{
  ℕ, zero, suc, refl, ap, Bool, true, Option, none, some, arith, ◌+◌, ◌≤◌, ◌<◌, ◌≡◌, ◌∙◌, string_eq,
  nat_eq,
}
use json_api_forge.Prelude.Text.{Text, text_eq}
use json_api_forge.HttpClient.Circuit.{
  CircuitState, Settings, Outcome, Reply, Run, returned, circuit_open, response, transport_error,
  transport_failed, record_failure, step, attempts, upper, effective_retries, is_open, half_open,
  request_state,
}
use json_api_forge.HttpClient.Retries.{attempts-finish, attempts_retry, AllRetried}

module _ (s : Settings) (is_success : ℕ → Bool) (send : ℕ → Outcome) (clock : ℕ → ℕ) where
  -- After attempts that are all retried, the circuit is open from the last one on, if the failures reach
  -- the threshold.
  attempts_trip :
      (n i : ℕ) (last : Option Reply) (st : CircuitState)
      → AllRetried s is_success send clock (suc n) i
      → s.failure_threshold ≤ st.failures + suc n
      → (attempts s is_success send clock (suc n) i last st).state.opened_at ≡ some (clock (i + n))
  attempts_trip zero i last st h t =
      let (r, e) = h.0 st in
      rw (attempts_retry s is_success send clock zero i last st r e)
        (unfold attempts in unfold record_failure in ground (arith, ap clock (plus_zero i)))
    where
      plus_zero : (k : ℕ) → k + 0 ≡ k
      plus_zero k = omega arith
  attempts_trip (suc n) i last st h t =
      let (r, e) = h.0 st in
      let failed : (record_failure s (clock i) st).failures ≡ st.failures + 1 =
        unfold record_failure in refl in
      rw (attempts_retry s is_success send clock (suc n) i last st r e) (
        attempts_trip n (i + 1) (some r) (record_failure s (clock i) st) h.1 (omega (arith, failed))
        ∙ ap (λ (k : ℕ). some (clock k)) (shift i n))
    where
      shift : (a b : ℕ) → a + 1 + b ≡ a + suc b
      shift a b = omega arith

-- A circuit that opened at `t` refuses, until its time is over, without sending.
refused :
    (s : Settings) (is_success : ℕ → Bool) (send : ℕ → Outcome) (clock : ℕ → ℕ) (method : Text)
    (retries : ℕ) (force : Bool) (later t : ℕ) (st : CircuitState)
    → st.opened_at ≡ some t
    → later < t + s.reset_ticks
    → 0 < s.reset_ticks
    → request_state s is_success send clock method retries force later st
      ≡ record { reply = circuit_open; state = st; sent = 0 }
unfolding request_state is_open
refused s is_success send clock method retries force later t st e h p = ground arith

-- A request on a closed circuit is its attempts.
closed :
    (s : Settings) (is_success : ℕ → Bool) (send : ℕ → Outcome) (clock : ℕ → ℕ) (method : Text)
    (retries : ℕ) (force : Bool) (now : ℕ) (st : CircuitState)
    → st.opened_at ≡ none
    → request_state s is_success send clock method retries force now st
      ≡ attempts s is_success send clock
          (suc (effective_retries (upper method) retries force))
          0
          none
          st
unfolding request_state is_open half_open
closed s is_success send clock method retries force now st e =
    let one_more : effective_retries (upper method) retries force + 1
        ≡ suc (effective_retries (upper method) retries force) =
      omega arith in
    ground (arith, ap (λ (k : ℕ). attempts s is_success send clock k 0 none st) one_more)

module _ (s : Settings) (is_success : ℕ → Bool) (send again : ℕ → Outcome)
    (clock ticks : ℕ → ℕ) where
  -- When every attempt of a request on a closed circuit fails in a way that is retried, and the
  -- failures reach the threshold, the next request to that host within the reset time, which is not 0,
  -- after the last attempt is refused: nothing is sent, and the circuit stays as it was.
  pub tripped_circuit_refuses :
      (method next : Text) (retries more now later : ℕ) (force forced : Bool) (st : CircuitState)
      → st.opened_at ≡ none
      → AllRetried s is_success send clock (suc (effective_retries (upper method) retries force)) 0
      → s.failure_threshold ≤ st.failures + suc (effective_retries (upper method) retries force)
      → 0 < s.reset_ticks
      → later < clock (effective_retries (upper method) retries force) + s.reset_ticks
      → request_state s is_success again ticks next more forced later
          (request_state s is_success send clock method retries force now st).state
        ≡ record {
          reply = circuit_open;
          state = (request_state s is_success send clock method retries force now st).state;
          sent = 0;
        }
  tripped_circuit_refuses method next retries more now later force forced st shut failed t p h =
      refused s is_success again ticks next more forced later _ _ tripped h p
    where
      eff : ℕ
      eff = effective_retries (upper method) retries force

      tripped :
          (request_state s is_success send clock method retries force now st).state.opened_at
          ≡ some (clock eff)
      tripped =
          ap (λ (r : Run). r.state.opened_at)
            (closed s is_success send clock method retries force now st shut)
          ∙ attempts_trip s is_success send clock eff 0 none st failed t
          ∙ ap (λ (k : ℕ). some (clock k)) (zero_plus eff)
        where
          zero_plus : (k : ℕ) → 0 + k ≡ k
          zero_plus k = omega arith

  -- A success does not close the circuit that the attempt before it in the same request has opened:
  -- when the first attempt fails in transport and reaches the threshold, and the second one succeeds,
  -- the request returns its response, its count of failures is back at 0, and still the next request
  -- within the reset time, which is not 0, is refused.
  pub success_leaves_circuit_open :
      (method next : Text) (retries more now later status : ℕ) (force forced : Bool)
      (st : CircuitState)
      → st.opened_at ≡ none
      → send 0 ≡ transport_error
      → send 1 ≡ response status
      → is_success status ≡ true
      → 0 < effective_retries (upper method) retries force
      → s.failure_threshold ≤ st.failures + 1
      → 0 < s.reset_ticks
      → later < clock 0 + s.reset_ticks
      → (request_state s is_success send clock method retries force now st ≡ record {
        reply = returned status;
        state = record { failures = 0; opened_at = some (clock 0) };
        sent = 2;
      })
        × ((request_state s is_success again ticks next more forced later
              (request_state s is_success send clock method retries force now st).state).reply
            ≡ circuit_open)
  success_leaves_circuit_open method next retries more now later status force forced st shut a b ok2
        r t p h =
      (
        run,
        ap (λ (x : Run). x.reply)
            (refused s is_success again ticks next more forced later (clock 0) _
              (ap (λ (x : Run). x.state.opened_at) run) h p),
      )
    where
      run : request_state s is_success send clock method retries force now st ≡ record {
        reply = returned status;
        state = record { failures = 0; opened_at = some (clock 0) };
        sent = 2;
      }
      run =
          closed s is_success send clock method retries force now st shut
          ∙ attempts_retry s is_success send clock (effective_retries (upper method) retries force)
              0 none st transport_failed (unfold step in rw a)
          ∙ second_attempt (effective_retries (upper method) retries force) r
        where
          second_attempt :
              (n : ℕ)
              → 0 < n
              → attempts s is_success send clock n 1
                  (some transport_failed)
                  (record_failure s (clock 0) st)
                ≡ record {
                  reply = returned status;
                  state = record { failures = 0; opened_at = some (clock 0) };
                  sent = 2;
                }
          second_attempt zero q = absurd (omega arith)
          second_attempt (suc n) q =
              attempts-finish s is_success send clock n 1 (some transport_failed)
                (record_failure s (clock 0) st) (returned status)
                (record { failures = 0; opened_at = some (clock 0) })
                (unfold step record_failure in rw b (ground arith))
