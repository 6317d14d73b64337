-- ===== src/Protection/Host.antt =====
-- framework/protection.py: host_allowed. Host headers and patterns are ASCII.
use json_api_forge.Prelude.{
  ℕ, suc, Bool, true, false, not, Option, none, some, List, [], map, nat_beq, any, all, contains,
  ◌&&◌, ◌||◌, ◌∷◌, if◌then◌else◌, nat_eq, string_eq,
}
use json_api_forge.Prelude.Text.{Text, text_eq, text_beq, codes, starts_with, ends_with, drop_last}
use json_api_forge.Prelude.Parts.{strip, rstrip, partition, to_lower, is_digit}

abbrev pub lower : Text → Text
lower = map to_lower

-- the characters of "/\@\r\n\0 \t"
abbrev pub forbidden : List ℕ
forbidden = 47 ∷ 92 ∷ 64 ∷ 13 ∷ 10 ∷ 0 ∷ 32 ∷ 9 ∷ []

-- A port that is there has digits only.
abbrev pub port_ok : Text → Bool
port_ok port = all (λ c. is_digit c) port

abbrev pub is_dot : ℕ → Bool
is_dot c = nat_beq c 46

-- What follows "]": nothing, or ":" and a port.
abbrev pub after_bracket : Text → Bool
after_bracket [] = true
after_bracket (c ∷ port) = nat_beq c 58 && port_ok port

abbrev pub count : ℕ → Text → ℕ
count c [] = 0
count c (d ∷ s) = if nat_beq d c then suc (count c s) else count c s

abbrev pub bracketed : Option (Text × Text) → Option Text
bracketed none = none
bracketed (some (inside, after)) = if after_bracket after then some (lower inside) else none

abbrev pub with_port : Option (Text × Text) → Option Text
with_port none = none
with_port (some (host, port)) = if port_ok port then some (rstrip is_dot (lower host)) else none

-- The host of a header without blanks round it, `none` where the code returns False.
unfoldable pub host_of : Text → Option Text
host_of [] = none
host_of (c ∷ raw) =
    if any (λ d. contains d forbidden) (c ∷ raw)
    then none
    else if nat_beq c 91
    then bracketed (partition 93 raw)
    else if nat_beq (count 58 (c ∷ raw)) 1
    then with_port (partition 58 (c ∷ raw))
    else some (rstrip is_dot (lower (c ∷ raw)))

abbrev pub drop_first : Text → Text
drop_first [] = []
drop_first (c ∷ s) = s

-- pattern.strip().lower().rstrip("."), and the brackets of an address taken off
unfoldable pub normal : Text → Text
normal pattern =
    let p = rstrip is_dot (lower (strip pattern)) in
    if starts_with p (codes "[") && ends_with p (codes "]") then drop_last (drop_first p) else p

unfoldable pub pattern_allows : Text → Text → Bool
pattern_allows host pattern =
    text_beq pattern host
    || (starts_with pattern (codes "*.")
        && (ends_with host (drop_first pattern)
            && not (text_beq host (drop_first (drop_first pattern)))))

unfoldable pub any_allows : Option Text → List Text → Bool
unfolding pattern_allows normal
any_allows none allowed = false
any_allows (some host) allowed = any (λ p. pattern_allows host (normal p)) allowed

abbrev pub has_no : List Text → Bool
has_no [] = true
has_no (x ∷ xs) = false

unfoldable pub host_allowed : Option Text → List Text → Bool
unfolding host_of any_allows
host_allowed header allowed_hosts =
    if has_no allowed_hosts || contains (codes "*") allowed_hosts
    then true
    else elim header [ none ↦ false | some raw ↦ any_allows (host_of (strip raw)) allowed_hosts ]
