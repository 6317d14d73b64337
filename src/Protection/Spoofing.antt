-- ===== src/Protection/Spoofing.antt =====
-- What a client can make of the forwarding headers.
use json_api_forge.Prelude.{
  refl, Bool, true, false, Option, some, List, [], map, arith, any, keep, ◌≡◌, ◌∷◌, ◌++◌,
}
use json_api_forge.Prelude.Text.{Text, text_eq}
use json_api_forge.Prelude.Parts.{split, strip, split-append}
use mathlib.Core.List.{reverse, reverse-append, map-append}
use json_api_forge.Protection.Proxy.{
  Connection, rule_matches, address_in_rules, direct_peer, chain, first_untrusted, from_header,
  client_from, client_ip, is_secure, request_is_https, ip_allowed,
}

module _ {Addr : Type 0} (parse_ip : Text → Option Addr)
    (in_network : Addr → Text → Option Bool) where
  abbrev ip_of : Connection → List Text → Text
  ip_of = client_ip parse_ip in_network

  -- A peer that is no trusted proxy is its own client, and its request counts as HTTPS by the scheme
  -- of the URL alone, whatever its headers say.
  pub untrusted_peer :
      (c : Connection) (trusted : List Text) (xff proto : Option Text)
      → address_in_rules parse_ip in_network (direct_peer parse_ip in_network c) trusted ≡ false
      → (ip_of (record c { forwarded_for = xff; forwarded_proto = proto }) trusted
          ≡ direct_peer parse_ip in_network c)
        × (request_is_https parse_ip in_network
              (record c { forwarded_for = xff; forwarded_proto = proto })
              trusted
            ≡ is_secure parse_ip in_network c.scheme)
  unfolding client_ip request_is_https
  untrusted_peer c trusted xff proto h = ground arith

  keep-append : (p : Text → Bool) (xs ys : List Text) → keep p (xs ++ ys) ≡ keep p xs ++ keep p ys
  keep-append p [] ys = refl
  keep-append p (x ∷ xs) ys = ground (arith, keep-append p xs ys)

  chain-append :
      (a b : Text)
      → chain parse_ip in_network (a ++ 44 ∷ b)
        ≡ chain parse_ip in_network a ++ chain parse_ip in_network b
  unfolding chain
  chain-append a b = rw (split-append, map-append) (keep-append _ (map strip (split 44 a)) _)

  first_untrusted-append :
      (trusted xs ys : List Text) (ip : Text)
      → first_untrusted parse_ip in_network trusted xs ≡ some ip
      → first_untrusted parse_ip in_network trusted (xs ++ ys) ≡ some ip
  unfolding first_untrusted
  first_untrusted-append trusted [] ys ip h = cc
  first_untrusted-append trusted (x ∷ xs) ys ip h =
      ground (arith, first_untrusted-append trusted xs ys ip)

  from_header_found :
      (peer : Text) (trusted : List Text) (xff ip : Text)
      → first_untrusted parse_ip in_network trusted (reverse (chain parse_ip in_network xff))
        ≡ some ip
      → from_header parse_ip in_network peer trusted xff ≡ ip
  unfolding from_header
  from_header_found peer trusted xff ip h = rw (h, from_header)

  from_header-append :
      (peer : Text) (trusted : List Text) (forged sent ip : Text)
      → first_untrusted parse_ip in_network trusted (reverse (chain parse_ip in_network sent))
        ≡ some ip
      → from_header parse_ip in_network peer trusted (forged ++ 44 ∷ sent) ≡ ip
  from_header-append peer trusted forged sent ip h =
      from_header_found peer trusted (forged ++ 44 ∷ sent) ip (
        rw (chain-append, reverse-append)
          (first_untrusted-append trusted _ (reverse (chain parse_ip in_network forged)) ip h))

  client_from-append :
      (peer : Text) (trusted : List Text) (forged sent ip : Text)
      → first_untrusted parse_ip in_network trusted (reverse (chain parse_ip in_network sent))
        ≡ some ip
      → client_from parse_ip in_network peer trusted (some (forged ++ 44 ∷ sent)) ≡ ip
  client_from-append peer trusted [] sent ip h = from_header-append peer trusted [] sent ip h
  client_from-append peer trusted (c ∷ forged) sent ip h =
      from_header-append peer trusted (c ∷ forged) sent ip h

  -- Behind a trusted proxy, when the header that was sent holds an address that is no trusted proxy,
  -- the client is the last such address, and no text put in front of that header changes it.
  pub forged_prefix :
      (c : Connection) (trusted : List Text) (forged sent ip : Text)
      → address_in_rules parse_ip in_network (direct_peer parse_ip in_network c) trusted ≡ true
      → first_untrusted parse_ip in_network trusted (reverse (chain parse_ip in_network sent))
        ≡ some ip
      → ip_of (record c { forwarded_for = some (forged ++ 44 ∷ sent) }) trusted ≡ ip
  unfolding client_ip
  forged_prefix c trusted forged sent ip t h =
      ground
        (arith, client_from-append (direct_peer parse_ip in_network c) trusted forged sent ip h)

  -- A denied peer that is no trusted proxy is refused, whatever its headers say and whatever is allowed.
  pub denied_peer_refused :
      (c : Connection) (allowed denied trusted : List Text) (xff : Option Text) (ip : Addr)
      → address_in_rules parse_ip in_network (direct_peer parse_ip in_network c) trusted ≡ false
      → parse_ip (direct_peer parse_ip in_network c) ≡ some ip
      → any (rule_matches parse_ip in_network (direct_peer parse_ip in_network c) ip) denied ≡ true
      → ip_allowed parse_ip in_network (record c { forwarded_for = xff }) allowed denied trusted
        ≡ false
  denied_peer_refused c allowed denied trusted xff ip t a d =
      refused (record c { forwarded_for = xff })
        (untrusted_peer c trusted xff c.forwarded_proto t).0
    where
      refused :
          (k : Connection)
          → ip_of k trusted ≡ direct_peer parse_ip in_network c
          → ip_allowed parse_ip in_network k allowed denied trusted ≡ false
      refused k e = unfold ip_allowed in ground (arith, e)
