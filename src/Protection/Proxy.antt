-- ===== src/Protection/Proxy.antt =====
-- framework/protection.py: the client's address behind proxies, and the address rules. Python's
-- `ipaddress` is a parameter: `parse_ip` is `ip_address`, `none` its ValueError, and `in_network`
-- the test `address in ip_network(rule, strict=False)`, `none` the ValueError of a rule that is no
-- network. Header texts are ASCII.
use json_api_forge.Prelude.{
  Bool, true, false, not, Option, none, some, List, [], map, any, keep, ◌&&◌, ◌||◌, ◌∷◌,
  if◌then◌else◌,
}
use json_api_forge.Prelude.Text.{Text, text_eq, text_beq, codes}
use json_api_forge.Prelude.Parts.{split, strip, to_lower}
use mathlib.Core.List.{reverse}

-- What the checks read of a request or a websocket: the peer's host, the two forwarding headers and
-- the scheme of the URL.
pub record Connection : Type 0 where
  pub client : Option Text
  pub forwarded_for : Option Text
  pub forwarded_proto : Option Text
  pub scheme : Text

module _ {Addr : Type 0} (parse_ip : Text → Option Addr)
    (in_network : Addr → Text → Option Bool) where
  -- one rule of `_address_in_rules` and of `ip_allowed`
  unfoldable pub rule_matches : Text → Addr → Text → Bool
  rule_matches raw address rule = elim (in_network address rule) [
    | none ↦ text_beq raw rule
    | some hit ↦ hit
  ]

  unfoldable pub address_in_rules : Text → List Text → Bool
  unfolding rule_matches
  address_in_rules raw rules = elim (parse_ip raw) [
    | none ↦ false
    | some address ↦ any (rule_matches raw address) rules
  ]

  abbrev pub direct_peer : Connection → Text
  direct_peer c = elim c.client [ none ↦ codes "unknown" | some host ↦ host ]

  -- part.strip() for part in xff.split(",") if part.strip()
  unfoldable pub chain : Text → List Text
  chain xff = keep (λ (part : Text). not (text_beq part [])) (map strip (split 44 xff))

  -- The loop over `reversed(chain)`: the first candidate that is an address and no trusted proxy.
  unfoldable pub first_untrusted : List Text → List Text → Option Text
  unfolding address_in_rules
  first_untrusted trusted [] = none
  first_untrusted trusted (candidate ∷ rest) =
      let next = first_untrusted trusted rest in
      elim (parse_ip candidate) [
        | none ↦ next
        | some a ↦ if address_in_rules candidate trusted then next else some candidate
      ]

  -- chain[0] if chain else peer
  abbrev pub first_or : List Text → Text → Text
  first_or [] peer = peer
  first_or (x ∷ xs) peer = x

  unfoldable pub from_header : Text → List Text → Text → Text
  unfolding chain first_untrusted
  from_header peer trusted xff = elim (first_untrusted trusted (reverse (chain xff))) [
    | none ↦ first_or (chain xff) peer
    | some candidate ↦ candidate
  ]

  -- `not xff` holds of a missing and of an empty header.
  abbrev pub client_from : Text → List Text → Option Text → Text
  client_from peer trusted none = peer
  client_from peer trusted (some []) = peer
  client_from peer trusted (some (c ∷ xff)) = from_header peer trusted (c ∷ xff)

  unfoldable pub client_ip : Connection → List Text → Text
  unfolding from_header
  client_ip c trusted =
      let peer = direct_peer c in
      if address_in_rules peer trusted then client_from peer trusted c.forwarded_for else peer

  abbrev pub is_secure : Text → Bool
  is_secure scheme =
      let low = map to_lower scheme in text_beq low (codes "https") || text_beq low (codes "wss")

  abbrev pub first_part : List Text → Text
  first_part [] = []
  first_part (x ∷ xs) = x

  -- `if forwarded` is false of a missing and of an empty header.
  unfoldable pub proto_is_secure : Option Text → Bool
  proto_is_secure none = false
  proto_is_secure (some []) = false
  proto_is_secure (some (c ∷ f)) = is_secure (strip (first_part (split 44 (c ∷ f))))

  unfoldable pub request_is_https : Connection → List Text → Bool
  unfolding address_in_rules proto_is_secure
  request_is_https c trusted =
      is_secure c.scheme
      || (address_in_rules (direct_peer c) trusted && proto_is_secure c.forwarded_proto)

  abbrev pub is_empty : List Text → Bool
  is_empty [] = true
  is_empty (x ∷ xs) = false

  unfoldable pub ip_allowed : Connection → List Text → List Text → List Text → Bool
  unfolding client_ip rule_matches
  ip_allowed c allowed denied trusted =
      let raw = client_ip c trusted in
      elim (parse_ip raw) [
        | none ↦ is_empty allowed
        | some ip ↦
            if any (rule_matches raw ip) denied
            then false
            else is_empty allowed || any (rule_matches raw ip) allowed
      ]
