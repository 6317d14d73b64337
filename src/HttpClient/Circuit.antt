-- ===== src/HttpClient/Circuit.antt =====
-- framework/services/http_client.py: CircuitState and ResilientHTTPClient.request. What the network
-- does is a parameter: `send i` is the outcome of attempt `i`, and `clock i` the reading after it.
-- The host is HTTPX's reading of the URL. HTTPX decides which statuses `raise_for_status` lets through: `is_success`.
use json_api_forge.Prelude.{
  ℕ, zero, suc, max, String, Bool, false, Option, none, some, List, [], map, ltb, leb, contains,
  ◌+◌, ◌-◌, ◌/◌, ◌||◌, ◌&&◌, ◌∷◌, if◌then◌else◌, string_eq, nat_eq,
}
use json_api_forge.Prelude.Clock.{second}
use json_api_forge.Prelude.Text.{Text, codes, text_eq}
use json_api_forge.Prelude.Dict.{Dict, lookup, assign}

pub record CircuitState : Type 0 where
  pub failures : ℕ
  pub opened_at : Option ℕ

pub record Settings : Type 0 where
  pub failure_threshold : ℕ
  pub reset_ticks : ℕ

-- What `_send_once` does: a response, or one of the exceptions that `request` tells apart.
pub data Outcome : Type 0 where
  response : ℕ → Outcome
  response_too_large : Outcome
  transport_error : Outcome
  other_error : Outcome

-- How `request` ends.
pub data Reply : Type 0 where
  returned : ℕ → Reply
  status_error : ℕ → Reply
  too_large : Reply
  transport_failed : Reply
  raised : Reply
  circuit_open : Reply
  no_attempt : Reply

-- max(1, int(failure_threshold)), max(0.1, float(reset_seconds))
unfoldable pub settings : ℕ → ℕ → Settings
settings failure_threshold reset_ticks = record {
  failure_threshold = max 1 failure_threshold;
  reset_ticks = max (second / 10) reset_ticks;
}

abbrev pub retryable_status : List ℕ
retryable_status = 408 ∷ 425 ∷ 429 ∷ 500 ∷ 502 ∷ 503 ∷ 504 ∷ []

abbrev pub idempotent_methods : List Text
idempotent_methods =
    codes "GET" ∷ codes "HEAD" ∷ codes "OPTIONS" ∷ codes "PUT" ∷ codes "DELETE" ∷ []

-- method.upper(), of an ASCII method
unfoldable pub upper : Text → Text
upper = map (λ c. if leb 97 c && leb c 122 then c - 32 else c)

-- The reply, the state of the host's circuit, and how many times a request went out.
pub record Run : Type 0 where
  pub reply : Reply
  pub state : CircuitState
  pub sent : ℕ

unfoldable pub record_failure : Settings → ℕ → CircuitState → CircuitState
record_failure s now st =
    let failures = st.failures + 1 in
    record {
      failures = failures;
      opened_at = if leb s.failure_threshold failures then some now else st.opened_at;
    }

-- raise last
unfoldable pub raise_last : Option Reply → Reply
raise_last none = no_attempt
raise_last (some e) = e

-- What an attempt comes to: the request ends, or the exception is kept as `last` and counted.
pub data Step : Type 0 where
  finish : Reply → CircuitState → Step
  retry : Reply → Step

unfoldable pub step : (ℕ → Bool) → Outcome → CircuitState → Step
step is_success (response status) st =
    if is_success status
    then finish (returned status) (record st { failures = 0 })
    else if contains status retryable_status
    then retry (status_error status)
    else finish (status_error status) st
step is_success response_too_large st = finish too_large st
step is_success transport_error st = retry transport_failed
step is_success other_error st = finish raised st

-- The method is in capitals here. Negative `retries` count as 0.
unfoldable pub effective_retries : Text → ℕ → Bool → ℕ
effective_retries method retries retry_non_idempotent =
    if contains method idempotent_methods || retry_non_idempotent then retries else 0

-- state.opened_at is not None and now - state.opened_at < self.reset_seconds
unfoldable pub is_open : Settings → ℕ → CircuitState → Bool
is_open s now st = elim st.opened_at [ none ↦ false | some t ↦ ltb (now - t) s.reset_ticks ]

unfoldable pub half_open : CircuitState → CircuitState
half_open st = elim st.opened_at [ none ↦ st | some t ↦ record { failures = 0; opened_at = none } ]

-- self.states.setdefault(host, CircuitState())
unfoldable pub state_of : String → Dict String CircuitState → CircuitState
state_of host states = elim (lookup host states) [
  | none ↦ record { failures = 0; opened_at = none }
  | some st ↦ st
]

module _ (s : Settings) (is_success : ℕ → Bool) (send : ℕ → Outcome) (clock : ℕ → ℕ) where
  -- The loop over the attempts that are left, the next of which is number `i`.
  unfoldable pub attempts : ℕ → ℕ → Option Reply → CircuitState → Run
  unfolding step record_failure raise_last
  attempts zero i last st = record { reply = raise_last last; state = st; sent = i }
  attempts (suc n) i last st = elim (step is_success (send i) st) [
    | finish reply st' ↦ record { reply = reply; state = st'; sent = i + 1 }
    | retry e ↦ attempts n (i + 1) (some e) (record_failure s (clock i) st)
  ]

  unfoldable pub request_state : Text → ℕ → Bool → ℕ → CircuitState → Run
  unfolding attempts effective_retries upper is_open half_open
  request_state method retries retry_non_idempotent now st =
      if is_open s now st
      then record { reply = circuit_open; state = st; sent = 0 }
      else attempts (effective_retries (upper method) retries retry_non_idempotent + 1) 0 none
          (half_open st)

  unfoldable pub request :
      Text → String → ℕ → Bool → ℕ → Dict String CircuitState → Run × Dict String CircuitState
  unfolding request_state state_of
  request method host retries retry_non_idempotent now states =
      let run = request_state method retries retry_non_idempotent now (state_of host states) in
      (run, assign host run.state states)
