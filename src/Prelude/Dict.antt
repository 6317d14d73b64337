-- ===== src/Prelude/Dict.antt =====
-- Python's dict and OrderedDict as a list of entries in insertion order.
use json_api_forge.Prelude.Tests.{
  Eq, ◌==◌, if◌then◌else◌, Bool-cases, Option-cases, beq_refl, beq_sym,
}
use json_api_forge.Prelude.Lists.{length, length-append}
use Prim.Native.Nat.{suc, ◌+◌, ◌≤◌}
use mathlib.Core.Path.{◌≡◌, refl, ◌∙◌, ap}
use mathlib.Core.Logic.{inl, inr}
use mathlib.Core.Option.{Option, none, some}
use mathlib.Core.List.{List, [], ◌∷◌, ◌++◌}
use native.Mathlib.Omega.{arith}

abbrev pub Dict {ℓ κ} : Type ℓ → Type κ → Type (ℓ ⊔ κ)
Dict K V = List (K × V)

module _ {ℓ κ} {K : Type ℓ} {V : Type κ} ⦃e : Eq K⦄ where
  -- d.get(k)
  unfoldable pub lookup : K → Dict K V → Option V
  lookup k [] = none
  lookup k ((j, v) ∷ d) = if j == k then some v else lookup k d

  -- d.pop(k, None)
  unfoldable pub pop : K → Dict K V → Dict K V
  pop k [] = []
  pop k ((j, v) ∷ d) = let rest = pop k d in if j == k then rest else (j, v) ∷ rest

  -- d[k] = v: a present key keeps its place
  unfoldable pub assign : K → V → Dict K V → Dict K V
  assign k v [] = (k, v) ∷ []
  assign k v ((j, w) ∷ d) = let rest = assign k v d in if j == k then (j, v) ∷ d else (j, w) ∷ rest

  -- d.move_to_end(k) on a present key
  unfoldable pub move_to_end : K → Dict K V → Dict K V
  unfolding lookup pop
  move_to_end k d = elim (lookup k d) [ none ↦ d | some v ↦ pop k d ++ (k, v) ∷ [] ]

  pub lookup-pop :
      (k j : K) (d : Dict K V) → lookup j (pop k d) ≡ (if k == j then none else lookup j d)
  unfolding lookup pop
  lookup-pop k j [] = ground arith
  lookup-pop k j ((i, v) ∷ d) =
      ground (arith, lookup-pop k j d, e.beq_iff i k, e.beq_iff i j, e.beq_iff k j)

  pub lookup-assign :
      (k j : K) (v : V) (d : Dict K V)
      → lookup j (assign k v d) ≡ (if k == j then some v else lookup j d)
  unfolding lookup assign
  lookup-assign k j v [] = refl
  lookup-assign k j v ((i, w) ∷ d) =
      ground (arith, lookup-assign k j v d, e.beq_iff i k, e.beq_iff i j, e.beq_iff k j)

  pub lookup-append :
      (j : K) (c d : Dict K V)
      → lookup j (c ++ d) ≡ elim (lookup j c) [ none ↦ lookup j d | some v ↦ some v ]
  unfolding lookup
  lookup-append j [] d = refl
  lookup-append j ((i, w) ∷ c) d = ground (arith, lookup-append j c d)

  pub move_to_end_absent : (k : K) (d : Dict K V) → lookup k d ≡ none → move_to_end k d ≡ d
  unfolding move_to_end
  move_to_end_absent k d h = rw (h, move_to_end)

  pub move_to_end_present :
      (k : K) (d : Dict K V) (v : V)
      → lookup k d ≡ some v
      → move_to_end k d ≡ pop k d ++ (k, v) ∷ []
  unfolding move_to_end
  move_to_end_present k d v h = rw (h, move_to_end)

  pub lookup-move_to_end : (k j : K) (d : Dict K V) → lookup j (move_to_end k d) ≡ lookup j d
  lookup-move_to_end k j d = elim (Option-cases (lookup k d)) [
    | inl gone ↦ rw (move_to_end_absent k d gone)
    | inr (v, found) ↦
        rw (move_to_end_present k d v found, lookup-append, lookup-pop)
          (unfold lookup in ground (arith, found, e.beq_iff k j))
  ]

  pub length-pop-le : (k : K) (d : Dict K V) → length (pop k d) ≤ length d
  unfolding pop
  length-pop-le k [] = omega arith
  length-pop-le k ((i, w) ∷ d) = ground (arith, length-pop-le k d)

  pub length-pop-some :
      (k : K) (d : Dict K V) (v : V) → lookup k d ≡ some v → suc (length (pop k d)) ≤ length d
  unfolding lookup pop
  length-pop-some k [] v h = cc
  length-pop-some k ((i, w) ∷ d) v h = ground (arith, length-pop-some k d v, length-pop-le k d)

  pub length-assign-le : (k : K) (v : V) (d : Dict K V) → length (assign k v d) ≤ length d + 1
  unfolding assign
  length-assign-le k v [] = omega arith
  length-assign-le k v ((i, w) ∷ d) = ground (arith, length-assign-le k v d)

  pub length-move_to_end-le : (k : K) (d : Dict K V) → length (move_to_end k d) ≤ length d
  length-move_to_end-le k d = elim (Option-cases (lookup k d)) [
    | inl gone ↦ rw (move_to_end_absent k d gone) (omega arith)
    | inr (v, found) ↦
        rw (move_to_end_present k d v found, length-append)
          (omega (arith, length-pop-some k d v found))
  ]

  pub length-assign_present :
      (k : K) (v w : V) (d : Dict K V) → lookup k d ≡ some w → length (assign k v d) ≡ length d
  unfolding lookup assign
  length-assign_present k v w [] h = cc
  length-assign_present k v w ((i, u) ∷ d) h = ground (arith, length-assign_present k v w d)

  -- No key twice: what Python guarantees of a dict's entries.
  abbrev pub IsDistinct : Dict K V → Type κ
  IsDistinct [] = Unit
  IsDistinct ((k, v) ∷ d) = (lookup k d ≡ none) × IsDistinct d

  pub pop-IsDistinct : (k : K) (d : Dict K V) → IsDistinct d → IsDistinct (pop k d)
  unfolding pop
  pop-IsDistinct k [] h = tt
  pop-IsDistinct k ((i, w) ∷ d) h = elim (Bool-cases (i == k)) [
    | inl same ↦ rw same (pop-IsDistinct k d h.1)
    | inr other ↦ rw other (ground (arith, lookup-pop k i d, h.0), pop-IsDistinct k d h.1)
  ]

  pub assign-IsDistinct : (k : K) (v : V) (d : Dict K V) → IsDistinct d → IsDistinct (assign k v d)
  unfolding assign
  assign-IsDistinct k v [] h = (unfold lookup in refl, tt)
  assign-IsDistinct k v ((i, w) ∷ d) h = elim (Bool-cases (i == k)) [
    | inl same ↦ rw same h
    | inr other ↦
        rw other
          (ground (arith, lookup-assign k i v d, h.0, beq_sym i k), assign-IsDistinct k v d h.1)
  ]

  append-IsDistinct :
      (k : K) (v : V) (d : Dict K V)
      → lookup k d ≡ none
      → IsDistinct d
      → IsDistinct (d ++ (k, v) ∷ [])
  unfolding lookup
  append-IsDistinct k v [] n h = (refl, tt)
  append-IsDistinct k v ((i, w) ∷ d) n h = (
    ground (arith, lookup-append i d ((k, v) ∷ []), h.0, e.beq_iff i k, e.beq_iff k i),
    append-IsDistinct k v d (ground arith) h.1,
  )

  pub move_to_end-IsDistinct : (k : K) (d : Dict K V) → IsDistinct d → IsDistinct (move_to_end k d)
  move_to_end-IsDistinct k d h = elim (Option-cases (lookup k d)) [
    | inl gone ↦ rw (move_to_end_absent k d gone) h
    | inr (v, found) ↦
        rw (move_to_end_present k d v found)
          (append-IsDistinct k v (pop k d) (simp (lookup-pop, beq_refl)) (pop-IsDistinct k d h))
  ]

  pub pop-assign : (k : K) (v : V) (d : Dict K V) → pop k (assign k v d) ≡ pop k d
  unfolding pop assign
  pop-assign k v [] = simp beq_refl
  pop-assign k v ((i, w) ∷ d) = ground (arith, pop-assign k v d)

  -- d[k] = v; d.move_to_end(k)
  pub move_to_end-assign :
      (k : K) (v : V) (d : Dict K V) → move_to_end k (assign k v d) ≡ pop k d ++ (k, v) ∷ []
  move_to_end-assign k v d =
      move_to_end_present k (assign k v d) v (simp (lookup-assign, beq_refl))
      ∙ ap (λ r. r ++ (k, v) ∷ []) (pop-assign k v d)

  pub ruleset dict_laws = (lookup-pop, lookup-assign, lookup-move_to_end)
