-- ===== src/Protection/Allowed.antt =====
-- framework/protection.py, host_allowed: what an accepted Host header looks like and what it names.
use json_api_forge.Prelude.{
  All, ℕ, refl, sym, ap, inl, inr, Bool, true, false, Option, none, some, List, [], arith, nat_beq,
  Bool-cases, any, all, In, here, there, contains, append_assoc, ◌≡◌, ◌∙◌, ◌⊎◌, ◌∷◌, ◌++◌, nat_eq,
  string_eq,
}
use json_api_forge.Prelude.Text.{
  Text, text_eq, text_beq, text_beq_iff, codes, starts_with, ends_with, ends_with→append,
  starts_with→append,
}
use json_api_forge.Prelude.Parts.{strip, rstrip, partition, is_digit}
use json_api_forge.Protection.Host.{
  lower, forbidden, port_ok, is_dot, after_bracket, count, bracketed, with_port, host_of,
  drop_first, normal, pattern_allows, any_allows, host_allowed,
}

-- A host that a normalised pattern lets in is the pattern itself, or a name below the domain after
-- "*.".
pattern_allows_sound :
    (host pattern : Text)
    → pattern_allows host pattern ≡ true
    → (pattern ≡ host)
      ⊎ ((domain : Text) × (name : Text) × (pattern ≡ codes "*." ++ domain)
          × (host ≡ name ++ codes "." ++ domain))
unfolding pattern_allows
pattern_allows_sound host pattern h = elim (Bool-cases (text_beq pattern host)) [
  | inl same ↦ inl ((text_beq_iff pattern host).0 same)
  | inr other ↦ inr (below (ground arith) (ground arith))
]
  where
    below :
        starts_with pattern (codes "*.") ≡ true
        → ends_with host (drop_first pattern) ≡ true
        → (domain : Text) × (name : Text) × (pattern ≡ codes "*." ++ domain)
          × (host ≡ name ++ codes "." ++ domain)
    below s e =
        let (domain, starts) = starts_with→append pattern (codes "*.") s in
        let (name, ends) = ends_with→append host (drop_first pattern) e in
        (
          domain,
          name,
          starts,
          ends
              ∙ ap (λ (x : Text). name ++ drop_first x) starts
              ∙ sym (append_assoc name (codes ".") domain),
        )

-- What an accepted header asks for.
abbrev pub Serves : Text → Text → Type 0
Serves host pattern =
    (normal pattern ≡ host)
    ⊎ ((domain : Text) × (name : Text) × (normal pattern ≡ codes "*." ++ domain)
        × (host ≡ name ++ codes "." ++ domain))

-- What a Host header without blanks round it may be, and the host that it names: a text without a
-- port, or a name with a port of digits after its only colon, or an address in brackets with such a
-- port or none. The codes 58, 91 and 93 are those of ":", "[" and "]".
pub data IsHeaderOf (host raw : Text) : Type 0 where
  plain :
      starts_with raw (codes "[") ≡ false
      → nat_beq (count 58 raw) 1 ≡ false
      → host ≡ rstrip is_dot (lower raw)
      → IsHeaderOf host raw
  named :
      (name port : Text)
      → raw ≡ name ++ 58 ∷ port
      → All (λ c. is_digit c ≡ true) port
      → host ≡ rstrip is_dot (lower name)
      → IsHeaderOf host raw
  address :
      (inside after port : Text)
      → raw ≡ 91 ∷ inside ++ 93 ∷ after
      → (after ≡ []) ⊎ (after ≡ 58 ∷ port)
      → All (λ c. is_digit c ≡ true) port
      → host ≡ lower inside
      → IsHeaderOf host raw

partition-append : (sep : ℕ) (s a b : Text) → partition sep s ≡ some (a, b) → s ≡ a ++ sep ∷ b
unfolding partition
partition-append sep [] a b h = cc
partition-append sep (c ∷ s) a b h = elim (Bool-cases (nat_beq c sep)) [
  | inl same ↦ ground arith
  | inr other ↦
      later (partition sep s) (λ a' b'. partition-append sep s a' b') refl
        (rw (partition, other) at h)
]
  where
    later :
        (o : Option (Text × Text))
        → ((a' b' : Text) → partition sep s ≡ some (a', b') → s ≡ a' ++ sep ∷ b')
        → partition sep s ≡ o
        → ◌≡◌ {A = Option (Text × Text)}
            (elim o [ none ↦ none | some (x, y) ↦ some (c ∷ x, y) ])
            (some (a, b))
        → c ∷ s ≡ a ++ sep ∷ b
    later none ih e k = cc
    later (some (a', b')) ih e k =
        let q = ih a' b' e in
        let first : c ∷ a' ≡ a = cc in
        let second : b' ≡ b = cc in rw (← first, ← second) (ap (◌∷◌ c) q)

all-All : (p : ℕ → Bool) (s : Text) → all p s ≡ true → All (λ c. p c ≡ true) s
all-All p [] h = tt
all-All p (c ∷ s) h = (ground arith, all-All p s (ground arith))

none-All : (p : ℕ → Bool) (s : Text) → any p s ≡ false → All (λ c. p c ≡ false) s
none-All p [] h = tt
none-All p (c ∷ s) h = (ground arith, none-All p s (ground arith))

with_port-IsHeaderOf :
    (raw host : Text) → with_port (partition 58 raw) ≡ some host → IsHeaderOf host raw
with_port-IsHeaderOf raw host h = go (partition 58 raw) refl h
  where
    go :
        (o : Option (Text × Text))
        → partition 58 raw ≡ o
        → with_port o ≡ some host
        → IsHeaderOf host raw
    go none e k = cc
    go (some (name, port)) e k = elim (Bool-cases (port_ok port)) [
      | inl digits ↦
          named name port (partition-append 58 raw name port e) (all-All _ port digits)
            (ground arith)
      | inr other ↦ absurd (ground arith)
    ]

after_bracket_lem :
    (after : Text)
    → after_bracket after ≡ true
    → (port : Text) × ((after ≡ []) ⊎ (after ≡ 58 ∷ port)) × All (λ c. is_digit c ≡ true) port
after_bracket_lem [] h = ([], inl refl, tt)
after_bracket_lem (c ∷ port) h =
    let colon : c ≡ 58 = ground arith in
    (port, inr (ap (λ (x : ℕ). x ∷ port) colon), all-All _ port (ground arith))

bracketed-IsHeaderOf :
    (raw host : Text) → bracketed (partition 93 raw) ≡ some host → IsHeaderOf host (91 ∷ raw)
bracketed-IsHeaderOf raw host h = go (partition 93 raw) refl h
  where
    go :
        (o : Option (Text × Text))
        → partition 93 raw ≡ o
        → bracketed o ≡ some host
        → IsHeaderOf host (91 ∷ raw)
    go none e k = cc
    go (some (inside, after)) e k = elim (Bool-cases (after_bracket after)) [
      | inl fine ↦
          let (port, shape, digits) = after_bracket_lem after fine in
          address inside after port (ap (◌∷◌ 91) (partition-append 93 raw inside after e)) shape
            digits (ground arith)
      | inr other ↦ absurd (ground arith)
    ]

-- A header that `host_of` reads holds no forbidden character and is one of those.
host_of-IsHeaderOf :
    (raw host : Text)
    → host_of raw ≡ some host
    → All (λ c. contains c forbidden ≡ false) raw × IsHeaderOf host raw
unfolding host_of starts_with
host_of-IsHeaderOf [] host h = cc
host_of-IsHeaderOf (c ∷ raw) host h =
    elim (Bool-cases (any (λ d. contains d forbidden) (c ∷ raw))) [
      | inl bad ↦ absurd (ground arith)
      | inr clean ↦ (none-All _ (c ∷ raw) clean, shape clean)
    ]
  where
    shape : any (λ d. contains d forbidden) (c ∷ raw) ≡ false → IsHeaderOf host (c ∷ raw)
    shape clean = elim (Bool-cases (nat_beq c 91)) [
      | inl bracket ↦
          let first : c ≡ 91 = ground arith in
          rw first (bracketed-IsHeaderOf raw host (rw (clean, bracket) at h))
      | inr other ↦ elim (Bool-cases (nat_beq (count 58 (c ∷ raw)) 1)) [
        | inl colon ↦ with_port-IsHeaderOf (c ∷ raw) host (rw (clean, other, colon) at h)
        | inr none_or_many ↦ plain (ground arith) none_or_many (ground arith)
      ]
    ]

any_allows_sound :
    (host : Text) (allowed : List Text)
    → any (λ p. pattern_allows host (normal p)) allowed ≡ true
    → (pattern : Text) × In pattern allowed × Serves host pattern
any_allows_sound host [] h = cc
any_allows_sound host (p ∷ ps) h = elim (Bool-cases (pattern_allows host (normal p))) [
  | inl hit ↦ (p, here, pattern_allows_sound host (normal p) hit)
  | inr miss ↦ let (q, m, s) = any_allows_sound host ps (ground arith) in (q, there m, s)
]

-- With an allow list that has no "*", an accepted request has a Host header that holds, blanks round
-- it apart, none of the characters "/\@\r\n\0 \t" and has the form of a host without a port, of a
-- name, ":" and digits, or of an address in brackets with such a port or none; and its host, in small
-- letters, is one of the listed names or a name below a listed "*." domain.
pub host_allowed_sound :
    (header : Option Text) (p : Text) (ps : List Text)
    → contains (codes "*") (p ∷ ps) ≡ false
    → host_allowed header (p ∷ ps) ≡ true
    → (raw : Text) × (host : Text) × (header ≡ some raw)
      × All (λ c. contains c forbidden ≡ false) (strip raw)
      × IsHeaderOf host (strip raw)
      × ((pattern : Text) × In pattern (p ∷ ps) × Serves host pattern)
unfolding host_allowed any_allows
host_allowed_sound none p ps star h = absurd (ground arith)
host_allowed_sound (some raw) p ps star h = known (host_of (strip raw)) refl (ground arith)
  where
    known :
        (o : Option Text)
        → host_of (strip raw) ≡ o
        → any_allows o (p ∷ ps) ≡ true
        → (r : Text) × (host : Text) × (some raw ≡ some r)
          × All (λ c. contains c forbidden ≡ false) (strip r)
          × IsHeaderOf host (strip r)
          × ((pattern : Text) × In pattern (p ∷ ps) × Serves host pattern)
    known none e a = cc
    known (some host) e a =
        let (clean, form) = host_of-IsHeaderOf (strip raw) host e in
        (raw, host, refl, clean, form, any_allows_sound host (p ∷ ps) a)
