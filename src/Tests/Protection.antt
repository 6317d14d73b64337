-- ===== src/Tests/Protection.antt =====
-- framework/protection.py: addresses are the texts themselves, and a network is its one address.
use json_api_forge.Prelude.{
  All, contains, false, nat_eq, max, refl, inl, Bool, true, Option, none, some, List, [], arith,
  length, In, ◌≤◌, ◌≡◌, ◌∷◌, ◌++◌, if◌then◌else◌,
}
use json_api_forge.Prelude.Text.{Text, text_eq, text_beq, codes, starts_with, ends_with, drop_last}
use json_api_forge.Prelude.Parts.{split, strip, rstrip, partition}
use json_api_forge.Protection.Proxy.{
  Connection, rule_matches, address_in_rules, chain, first_untrusted, client_ip,
}
use json_api_forge.Protection.Spoofing.{forged_prefix}
use json_api_forge.Protection.Host.{
  forbidden, host_of, normal, pattern_allows, any_allows, host_allowed,
}
use json_api_forge.Protection.Allowed.{IsHeaderOf, Serves, host_allowed_sound}
use json_api_forge.Protection.Gate
use json_api_forge.Protection.Gate.{run, arrives, leaves, gate_never_over_limit}
use json_api_forge.Protection.Body.{Request, App, handle, body_within_limit_served, served}

abbrev parse_ip : Text → Option Text
parse_ip t = if text_beq t (codes "evil") then none else some t

abbrev in_network : Text → Text → Option Bool
in_network a rule = some (text_beq a rule)

abbrev behind_proxy : Connection
behind_proxy = record {
  client = some (codes "10.0.0.1");
  forwarded_for = none;
  forwarded_proto = none;
  scheme = codes "http";
}

abbrev proxies : List Text
proxies = codes "10.0.0.1" ∷ []

-- The client is 9.9.9.9, which forged a first part.
abbrev sent : Text
sent = codes "9.9.9.9, 10.0.0.1"

forged_prefix_example :
    client_ip parse_ip in_network
      (record behind_proxy { forwarded_for = some (codes "127.0.0.1" ++ 44 ∷ sent) })
      proxies
    ≡ codes "9.9.9.9"
unfolding address_in_rules rule_matches first_untrusted chain split strip rstrip
forged_prefix_example =
    forged_prefix parse_ip in_network behind_proxy proxies (codes "127.0.0.1") sent
      (codes "9.9.9.9") refl refl

host_allowed_sound_example :
    (raw : Text) × (host : Text) × (some (codes "api.Example.com:80") ≡ some raw)
    × All (λ c. contains c forbidden ≡ false) (strip raw)
    × IsHeaderOf host (strip raw)
    × ((pattern : Text) × In pattern (codes "*.example.com" ∷ []) × Serves host pattern)
unfolding host_allowed any_allows pattern_allows normal host_of strip rstrip partition starts_with
    ends_with drop_last
host_allowed_sound_example =
    host_allowed_sound (some (codes "api.Example.com:80")) (codes "*.example.com") [] refl refl

abbrev schedule : List Gate.Event
schedule = arrives 1 ∷ arrives 2 ∷ leaves 1 ∷ []

gate_never_over_limit_example :
    ((run schedule (Gate.init 1 true)).active ≡ length (run schedule (Gate.init 1 true)).inside)
    × ((run schedule (Gate.init 1 true)).active ≤ max 1 1)
gate_never_over_limit_example = gate_never_over_limit 1 true schedule

abbrev greedy : App
greedy = record { reads = 10; starts_after = 10 }

abbrev upload : Request
upload = record { content_length = none; chunks = 60 ∷ 60 ∷ [] }

body_within_limit_served_example : handle (some 200) greedy upload ≡ served (60 ∷ 60 ∷ [])
body_within_limit_served_example =
    body_within_limit_served 200 greedy upload (omega arith) (inl refl) (omega arith) (omega arith)
