-- ===== src/Tests/HttpClient.antt =====
-- framework/services/http_client.py: a breaker with a threshold of one and two failures.
use json_api_forge.Prelude.{
  ℕ, zero, suc, refl, Bool, false, none, some, arith, ltb, leb, ◌+◌, ◌≤◌, ◌≡◌, ◌&&◌,
}
use json_api_forge.Prelude.Text.{codes, text_eq}
use json_api_forge.HttpClient.Circuit.{
  returned, CircuitState, Settings, Outcome, step, upper, effective_retries, is_open, request_state,
  response, transport_error, transport_failed, circuit_open,
}
use json_api_forge.HttpClient.Retries.{request_state_sent, retried_request_sent}
use json_api_forge.HttpClient.Breaker.{tripped_circuit_refuses, success_leaves_circuit_open}

abbrev success : ℕ → Bool
success status = leb 200 status && ltb status 300

abbrev failing : ℕ → Outcome
failing i = transport_error

abbrev recovering : ℕ → Outcome
recovering zero = transport_error
recovering (suc i) = response 200

abbrev clock : ℕ → ℕ
clock i = i + 1

abbrev once : Settings
once = record { failure_threshold = 1; reset_ticks = 100 }

abbrev twice : Settings
twice = record { failure_threshold = 2; reset_ticks = 100 }

abbrev shut : CircuitState
shut = record { failures = 0; opened_at = none }

request_state_sent_example :
    (request_state twice success failing clock (codes "post") 3 false 0 shut).sent ≤ 1
unfolding upper
request_state_sent_example =
    request_state_sent twice success failing clock (codes "post") 3 false 0 shut

retried_request_sent_example :
    (request_state twice success failing clock (codes "get") 1 false 0 shut).sent ≡ 2
unfolding upper effective_retries step is_open
retried_request_sent_example =
    retried_request_sent twice success failing clock (codes "get") 1 false 0 shut refl
      ((λ st. (transport_failed, refl)), ((λ st. (transport_failed, refl)), tt))

tripped_circuit_refuses_example :
    request_state twice success recovering clock
      (codes "GET")
      0
      false
      50
      (request_state twice success failing clock (codes "GET") 1 false 0 shut).state
    ≡ record {
      reply = circuit_open;
      state = (request_state twice success failing clock (codes "GET") 1 false 0 shut).state;
      sent = 0;
    }
unfolding effective_retries upper step
tripped_circuit_refuses_example =
    tripped_circuit_refuses twice success failing recovering clock clock (codes "GET") (codes "GET")
      1 0 0 50 false false shut refl
      ((λ st. (transport_failed, refl)), ((λ st. (transport_failed, refl)), tt)) (omega arith)
      (omega arith) (omega arith)

success_leaves_circuit_open_example :
    (request_state once success recovering clock (codes "GET") 1 false 0 shut ≡ record {
      reply = returned 200;
      state = record { failures = 0; opened_at = some (clock 0) };
      sent = 2;
    })
    × (request_state once success failing clock
        (codes "GET")
        0
        false
        50
        (request_state once success recovering clock (codes "GET") 1 false 0 shut).state).reply
      ≡ circuit_open
unfolding effective_retries upper
success_leaves_circuit_open_example =
    success_leaves_circuit_open once success recovering failing clock clock (codes "GET")
      (codes "GET") 1 0 0 50 200 false false shut refl refl refl refl (omega arith) (omega arith)
      (omega arith) (omega arith)
