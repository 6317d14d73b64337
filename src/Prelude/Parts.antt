-- ===== src/Prelude/Parts.antt =====
-- Python's string methods that take a text apart, on ASCII texts.
use json_api_forge.Prelude.Tests.{nat_beq, leb, if◌then◌else◌, Bool-cases}
use json_api_forge.Prelude.Text.{Text}
use Prim.Native.Nat.{ℕ, ◌+◌}
use mathlib.Core.Path.{◌≡◌, refl, ap}
use mathlib.Core.Logic.{inl, inr}
use mathlib.Core.Bool.{Bool, true, false, ◌&&◌, ◌||◌}
use mathlib.Core.Option.{Option, none, some}
use mathlib.Core.List.{List, [], ◌∷◌, ◌++◌}
use native.Mathlib.Omega.{arith}

-- s.split(",") for a separator of one code point
unfoldable pub add_to_first : ℕ → List Text → List Text
add_to_first c [] = (c ∷ []) ∷ []
add_to_first c (t ∷ ts) = (c ∷ t) ∷ ts

unfoldable pub split : ℕ → Text → List Text
unfolding add_to_first
split sep [] = [] ∷ []
split sep (c ∷ s) =
    let rest = split sep s in if nat_beq c sep then [] ∷ rest else add_to_first c rest

split_nonempty : (sep : ℕ) (s : Text) → (x : Text) × (r : List Text) × (split sep s ≡ x ∷ r)
unfolding split
split_nonempty sep [] = ([], [], refl)
split_nonempty sep (c ∷ s) = elim (Bool-cases (nat_beq c sep)) [
  | inl here ↦ ([], split sep s, rw here)
  | inr other ↦ let (x, r, e) = split_nonempty sep s in (c ∷ x, r, rw (other, e))
]

pub split-append : (sep : ℕ) (s t : Text) → split sep (s ++ sep ∷ t) ≡ split sep s ++ split sep t
unfolding split
split-append sep [] t = ground arith
split-append sep (c ∷ s) t = elim (Bool-cases (nat_beq c sep)) [
  | inl here ↦ rw here (ap (λ (r : List Text). [] ∷ r) (split-append sep s t))
  | inr other ↦ let (x, r, e) = split_nonempty sep s in rw (other, split-append sep s t, e) refl
]

-- Characters of ASCII texts.
abbrev pub is_space : ℕ → Bool
is_space c = nat_beq c 32 || (leb 9 c && leb c 13 || leb 28 c && leb c 31)

abbrev pub is_digit : ℕ → Bool
is_digit c = leb 48 c && leb c 57

abbrev pub to_lower : ℕ → ℕ
to_lower c = if leb 65 c && leb c 90 then c + 32 else c

-- s.lstrip(), and s.rstrip(c) and s.rstrip() by a test on the code points
unfoldable pub lstrip : (ℕ → Bool) → Text → Text
lstrip p [] = []
lstrip p (c ∷ s) = let rest = lstrip p s in if p c then rest else c ∷ s

unfoldable pub rstrip : (ℕ → Bool) → Text → Text
rstrip p [] = []
rstrip p (c ∷ s) = elim (rstrip p s) [ [] ↦ if p c then [] else c ∷ [] | d ∷ t ↦ c ∷ d ∷ t ]

unfoldable pub strip : Text → Text
unfolding lstrip rstrip
strip s = rstrip is_space (lstrip is_space s)

-- The text before and after the first occurrence of a code point.
unfoldable pub partition : ℕ → Text → Option (Text × Text)
partition sep [] = none
partition sep (c ∷ s) = elim (nat_beq c sep) [
  | true ↦ some ([], s)
  | false ↦ elim (partition sep s) [ none ↦ none | some (a, b) ↦ some (c ∷ a, b) ]
]
