-- ===== src/Prelude/Text.antt =====
-- Texts that the program takes apart: lists of code points, with Python's string methods.
use json_api_forge.Prelude.Tests.{nat_beq, Eq, nat_eq, Bool-cases}
use Prim.Native.Nat.{ℕ}
use Prim.Native.Char.{code}
use Prim.Native.String.{String}
use mathlib.Core.Path.{◌≡◌, refl, ap}
use mathlib.Core.Logic.{◌↔◌, inl, inr}
use mathlib.Core.Bool.{Bool, true, false, ◌&&◌, ◌||◌}
use mathlib.Core.Option.{Option, none, some}
use mathlib.Core.List.{List, [], ◌∷◌, ◌++◌}
use native.Mathlib.Omega.{arith}

abbrev pub Text : Type 0
Text = List ℕ

abbrev pub codes : String → Text
codes String.[] = []
codes (String.◌∷◌ c s) = code c ∷ codes s

abbrev pub text_beq : Text → Text → Bool
text_beq [] [] = true
text_beq [] (b ∷ t) = false
text_beq (a ∷ s) [] = false
text_beq (a ∷ s) (b ∷ t) = nat_beq a b && text_beq s t

pub text_beq_iff : (s t : Text) → (text_beq s t ≡ true) ↔ (s ≡ t)
text_beq_iff [] [] = (λ _. refl, λ _. refl)
text_beq_iff [] (b ∷ t) = (λ h. cc, λ h. cc)
text_beq_iff (a ∷ s) [] = (λ h. cc, λ h. cc)
text_beq_iff (a ∷ s) (b ∷ t) =
    (λ h. ground (arith, text_beq_iff s t), λ h. ground (arith, text_beq_iff s t))

instance abbrev pub text_eq : Eq Text
text_eq = record { beq = text_beq; beq_iff = text_beq_iff }

-- s.startswith(p)
unfoldable pub starts_with : Text → Text → Bool
starts_with s [] = true
starts_with [] (b ∷ p) = false
starts_with (a ∷ s) (b ∷ p) = nat_beq a b && starts_with s p

-- s.endswith(p)
unfoldable pub ends_with : Text → Text → Bool
ends_with [] p = text_beq [] p
ends_with (a ∷ s) p = text_beq (a ∷ s) p || ends_with s p

-- s[:-1]
unfoldable pub drop_last : Text → Text
drop_last [] = []
drop_last (a ∷ []) = []
drop_last (a ∷ b ∷ s) = a ∷ drop_last (b ∷ s)

pub starts_with-append : (p t : Text) → starts_with (p ++ t) p ≡ true
unfolding starts_with
starts_with-append [] [] = refl
starts_with-append [] (a ∷ t) = refl
starts_with-append (a ∷ p) t = ground (arith, starts_with-append p t)

pub starts_with→append : (s p : Text) → starts_with s p ≡ true → (t : Text) × (s ≡ p ++ t)
unfolding starts_with
starts_with→append s [] h = (s, refl)
starts_with→append [] (b ∷ p) h = ([], cc)
starts_with→append (a ∷ s) (b ∷ p) h =
    let (t, e) = starts_with→append s p (ground arith) in
    let first : a ≡ b = ground arith in (t, cc (e, first))

pub ends_with→append : (s p : Text) → ends_with s p ≡ true → (r : Text) × (s ≡ r ++ p)
unfolding ends_with
ends_with→append [] p h = ([], (text_beq_iff [] p).0 h)
ends_with→append (a ∷ s) p h = elim (Bool-cases (text_beq (a ∷ s) p)) [
  | inl e ↦ ([], (text_beq_iff (a ∷ s) p).0 e)
  | inr n ↦ let (r, e) = ends_with→append s p (ground arith) in (a ∷ r, ap (◌∷◌ a) e)
]

pub ends_with-append : (r p : Text) → ends_with (r ++ p) p ≡ true
unfolding ends_with
ends_with-append [] [] = refl
ends_with-append [] (b ∷ p) = ground (arith, text_beq_iff p p)
ends_with-append (a ∷ r) p = ground (arith, ends_with-append r p)

pub drop_last-append :
    (r : Text) (b : ℕ) (t : Text) → drop_last (r ++ b ∷ t) ≡ r ++ drop_last (b ∷ t)
unfolding drop_last
drop_last-append [] b t = refl
drop_last-append (a ∷ []) b t = refl
drop_last-append (a ∷ c ∷ r) b t = ap (◌∷◌ a) (drop_last-append (c ∷ r) b t)

-- A text ends in one code point only.
pub append_last_inj : (r s : Text) (a b : ℕ) → r ++ a ∷ [] ≡ s ++ b ∷ [] → a ≡ b
append_last_inj [] [] a b h = cc
append_last_inj [] (d ∷ []) a b h = cc
append_last_inj [] (d ∷ e ∷ s) a b h = cc
append_last_inj (c ∷ []) [] a b h = cc
append_last_inj (c ∷ e ∷ r) [] a b h = cc
append_last_inj (c ∷ r) (d ∷ s) a b h = append_last_inj r s a b (cc)

-- Texts that may be missing.
abbrev pub option_beq : Option Text → Option Text → Bool
option_beq none none = true
option_beq none (some t) = false
option_beq (some s) none = false
option_beq (some s) (some t) = text_beq s t

pub option_beq_iff : (s t : Option Text) → (option_beq s t ≡ true) ↔ (s ≡ t)
option_beq_iff none none = (λ _. refl, λ _. refl)
option_beq_iff none (some t) = (λ h. cc, λ h. cc)
option_beq_iff (some s) none = (λ h. cc, λ h. cc)
option_beq_iff (some s) (some t) =
    (λ h. ap some ((text_beq_iff s t).0 h), λ h. ground (arith, text_beq_iff s t))
