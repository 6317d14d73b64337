-- ===== src/Runtime/Paths.antt =====
-- Which runtime a path belongs to.
use json_api_forge.Prelude.{
  ℕ, inl, inr, true, false, Option, none, some, List, [], arith, leb, leb→le, Bool-cases, length,
  In, here, there, not-In-nil, In-cons, ◌≤◌, ◌≡◌, ◌↔◌, ◌⊎◌, ◌∷◌,
}
use json_api_forge.Prelude.Text.{Text}
use json_api_forge.Runtime.Manager.{
  RuntimeManager, insert_prefix, sort_prefixes, serves, first_serving, for_path,
}

-- No later prefix is longer.
abbrev IsSorted : List (Text × ℕ) → Type 0
IsSorted [] = Unit
IsSorted (x ∷ xs) = ((y : Text × ℕ) → In y xs → length y.0 ≤ length x.0) × IsSorted xs

In-insert_prefix :
    (x y : Text × ℕ) (xs : List (Text × ℕ)) → In y (insert_prefix x xs) → (y ≡ x) ⊎ In y xs
unfolding insert_prefix
In-insert_prefix x y [] m = In-cons m
In-insert_prefix x y (z ∷ xs) m = elim (Bool-cases (leb (length z.0) (length x.0))) [
  | inl first ↦ In-cons (rw first at m)
  | inr later ↦ elim (In-cons (rw later at m)) [
    | inl e ↦ inr (rw e here)
    | inr n ↦ elim (In-insert_prefix x y xs n) [ inl e ↦ inl e | inr o ↦ inr (there o) ]
  ]
]

insert_prefix-In :
    (x y : Text × ℕ) (xs : List (Text × ℕ)) → (y ≡ x) ⊎ In y xs → In y (insert_prefix x xs)
unfolding insert_prefix
insert_prefix-In x y [] (inl e) = rw e here
insert_prefix-In x y [] (inr m) = absurd (not-In-nil m)
insert_prefix-In x y (z ∷ xs) m = elim (Bool-cases (leb (length z.0) (length x.0))) [
  | inl first ↦ rw first (front m)
  | inr later ↦ rw later (back (λ k. insert_prefix-In x y xs k) m)
]
  where
    front : (y ≡ x) ⊎ In y (z ∷ xs) → In y (x ∷ z ∷ xs)
    front (inl e) = rw e here
    front (inr n) = there n

    back :
        ((y ≡ x) ⊎ In y xs → In y (insert_prefix x xs))
        → (y ≡ x) ⊎ In y (z ∷ xs)
        → In y (z ∷ insert_prefix x xs)
    back rest (inl e) = there (rest (inl e))
    back rest (inr n) = elim (In-cons n) [ inl e ↦ rw e here | inr o ↦ there (rest (inr o)) ]

insert_prefix-IsSorted :
    (x : Text × ℕ) (xs : List (Text × ℕ)) → IsSorted xs → IsSorted (insert_prefix x xs)
unfolding insert_prefix
insert_prefix-IsSorted x [] v = (λ y m. absurd (not-In-nil m), tt)
insert_prefix-IsSorted x (z ∷ xs) v = elim (Bool-cases (leb (length z.0) (length x.0))) [
  | inl first ↦ rw first (λ y m. le_first y first (In-cons m), v)
  | inr later ↦
      rw later
        (λ y m. le_later y later (In-insert_prefix x y xs m), insert_prefix-IsSorted x xs v.1)
]
  where
    le_first :
        (y : Text × ℕ)
        → leb (length z.0) (length x.0) ≡ true
        → (y ≡ z) ⊎ In y xs
        → length y.0 ≤ length x.0
    le_first y h (inl e) = rw e (leb→le _ _ h)
    le_first y h (inr m) = omega (arith, v.0 y m, leb→le (length z.0) (length x.0) h)

    le_later :
        (y : Text × ℕ)
        → leb (length z.0) (length x.0) ≡ false
        → (y ≡ x) ⊎ In y xs
        → length y.0 ≤ length z.0
    le_later y h (inl e) = rw e (ground arith)
    le_later y h (inr m) = v.0 y m

sort_prefixes-IsSorted : (ps : List (Text × ℕ)) → IsSorted (sort_prefixes ps)
unfolding sort_prefixes
sort_prefixes-IsSorted [] = tt
sort_prefixes-IsSorted (x ∷ ps) =
    insert_prefix-IsSorted x (sort_prefixes ps) (sort_prefixes-IsSorted ps)

In-sort_prefixes : (ps : List (Text × ℕ)) (y : Text × ℕ) → In y (sort_prefixes ps) ↔ In y ps
unfolding sort_prefixes
In-sort_prefixes [] y = (λ m. m, λ m. m)
In-sort_prefixes (x ∷ ps) y = (to (In-sort_prefixes ps y).0, from (In-sort_prefixes ps y).1)
  where
    to :
        (In y (sort_prefixes ps) → In y ps)
        → In y (insert_prefix x (sort_prefixes ps))
        → In y (x ∷ ps)
    to rest m = elim (In-insert_prefix x y (sort_prefixes ps) m) [
      | inl e ↦ rw e here
      | inr n ↦ there (rest n)
    ]

    from :
        (In y ps → In y (sort_prefixes ps))
        → In y (x ∷ ps)
        → In y (insert_prefix x (sort_prefixes ps))
    from rest m = elim (In-cons m) [
      | inl e ↦ insert_prefix-In x y (sort_prefixes ps) (inl e)
      | inr n ↦ insert_prefix-In x y (sort_prefixes ps) (inr (rest n))
    ]

-- What a lookup may answer: no prefix serves the path, or a longest one that does.
abbrev pub Answers : Text → List (Text × ℕ) → Option ℕ → Type 0
Answers path ps none = (y : Text × ℕ) → In y ps → serves path y.0 ≡ false
Answers path ps (some id) =
    (prefix : Text) × In (prefix, id) ps
    × (serves path prefix ≡ true)
    × ((y : Text × ℕ) → In y ps → serves path y.0 ≡ true → length y.0 ≤ length prefix)

first_serving-Answers :
    (path : Text) (ps : List (Text × ℕ)) → IsSorted ps → Answers path ps (first_serving path ps)
unfolding first_serving
first_serving-Answers path [] v = λ y m. absurd (not-In-nil m)
first_serving-Answers path ((prefix, id) ∷ ps) v = elim (Bool-cases (serves path prefix)) [
  | inl hit ↦ rw hit (prefix, here, hit, λ y m s. longest y (In-cons m))
  | inr miss ↦ rw miss (later (first_serving path ps) (first_serving-Answers path ps v.1) miss)
]
  where
    longest : (y : Text × ℕ) → (y ≡ (prefix, id)) ⊎ In y ps → length y.0 ≤ length prefix
    longest y (inl e) = rw e (omega arith)
    longest y (inr m) = v.0 y m

    later :
        (o : Option ℕ)
        → Answers path ps o
        → serves path prefix ≡ false
        → Answers path ((prefix, id) ∷ ps) o
    later none a miss = λ y m. elim (In-cons m) [ inl e ↦ rw e miss | inr n ↦ a y n ]
    later (some j) (q, m, s, l) miss = (
      q,
      there m,
      s,
      λ y n t. elim (In-cons n) [ inl e ↦ absurd (contradiction y e miss t) | inr o ↦ l y o t ],
    )
      where
        contradiction :
            (y : Text × ℕ)
            → y ≡ (prefix, id)
            → serves path prefix ≡ false
            → serves path y.0 ≡ true
            → ⊥
        contradiction y e f t = cc

-- In a manager whose prefixes are sorted as `__init__` does it, a path goes to a runtime whose prefix
-- is the longest of those that serve it, and to none only if no prefix does.
pub for_path_longest :
    (path : Text) (ps : List (Text × ℕ)) (m : RuntimeManager)
    → m.prefixes ≡ sort_prefixes ps
    → Answers path ps (for_path path m)
unfolding for_path
for_path_longest path ps m e = rw e (
    unsorted (first_serving path (sort_prefixes ps))
      (first_serving-Answers path (sort_prefixes ps) (sort_prefixes-IsSorted ps)))
  where
    unsorted : (o : Option ℕ) → Answers path (sort_prefixes ps) o → Answers path ps o
    unsorted none a = λ y n. a y ((In-sort_prefixes ps y).1 n)
    unsorted (some id) (q, n, s, l) =
        (q, (In-sort_prefixes ps (q, id)).0 n, s, λ y k t. l y ((In-sort_prefixes ps y).1 k) t)
