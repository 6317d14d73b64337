-- ===== src/Crud/Paging/Runs.antt =====
-- Lists in order, cut into pages.
use json_api_forge.Prelude.{
  ℕ, sym, ap, subst, inl, inr, Bool, true, false, List, [], arith, length, take, drop,
  take-append-drop, keep, All, In, here, there, All-In, All-intro, In-append, not-In-nil, In-cons,
  ◌≤◌, ◌<◌, ◌≡◌, ◌∙◌, ◌⊎◌, ◌∷◌, ◌++◌,
}
use json_api_forge.Crud.Paging.Order.{Sorted}

module _ {ℓ} {A : Type ℓ} where
  pub All-append_left {κ} : (P : A → Type κ) (xs ys : List A) → All P (xs ++ ys) → All P xs
  All-append_left P [] ys h = tt
  All-append_left P (x ∷ xs) ys h = (h.0, All-append_left P xs ys h.1)

  pub All-append_right {κ} : (P : A → Type κ) (xs ys : List A) → All P (xs ++ ys) → All P ys
  All-append_right P [] ys h = h
  All-append_right P (x ∷ xs) ys h = All-append_right P xs ys h.1

  pub All-append {κ} : (P : A → Type κ) (xs ys : List A) → All P xs → All P ys → All P (xs ++ ys)
  All-append P [] ys h k = k
  All-append P (x ∷ xs) ys h k = (h.0, All-append P xs ys h.1 k)

  pub In-take-drop : (n : ℕ) (xs : List A) (x : A) → In x xs → In x (take n xs) ⊎ In x (drop n xs)
  In-take-drop n xs x m =
      In-append (take n xs) (drop n xs) (subst (In x) (sym (take-append-drop n xs)) m)

  module _ {κ} (R : A → A → Type κ) where
    pub Sorted-left : (xs ys : List A) → Sorted R (xs ++ ys) → Sorted R xs
    Sorted-left [] ys h = tt
    Sorted-left (x ∷ xs) ys h = (All-append_left (R x) xs ys h.0, Sorted-left xs ys h.1)

    pub Sorted-across : (xs ys : List A) (x y : A) → Sorted R (xs ++ ys) → In x xs → In y ys → R x y
    Sorted-across (z ∷ xs) ys x y h m n = elim (In-cons m) [
      | inl e ↦ subst (λ w. R w y) (sym e) (All-In (R z) (All-append_right (R z) xs ys h.0) n)
      | inr later ↦ Sorted-across xs ys x y h.1 later n
    ]
    Sorted-across [] ys x y h m n = absurd (not-In-nil m)

    pub Sorted-append :
        (xs ys : List A)
        → Sorted R xs
        → Sorted R ys
        → ((x y : A) → In x xs → In y ys → R x y)
        → Sorted R (xs ++ ys)
    Sorted-append [] ys h k across = k
    Sorted-append (x ∷ xs) ys h k across = (
      All-append (R x) xs ys h.0 (All-intro (R x) ys (λ y n. across x y here n)),
      Sorted-append xs ys h.1 k (λ a b m n. across a b (there m) n),
    )

pub length-keep-lt {ℓ} :
    {A : Type ℓ} (p q : A → Bool) (xs : List A) (x : A)
    → ((y : A) → In y xs → q y ≡ true → p y ≡ true)
    → In x xs
    → p x ≡ true
    → q x ≡ false
    → length (keep q xs) < length (keep p xs)
length-keep-lt {A} p q (y ∷ xs) x wider m held gone = elim (In-cons m) [
  | inl e ↦
      let px : p y ≡ true = ap p (sym e) ∙ held in
      let qx : q y ≡ false = ap q (sym e) ∙ gone in ground (arith, le xs (λ z i. wider z (there i)))
  | inr later ↦
      ground
        (arith, length-keep-lt p q xs x (λ z i. wider z (there i)) later held gone, wider y here)
]
  where
    le :
        (zs : List A)
        → ((z : A) → In z zs → q z ≡ true → p z ≡ true)
        → length (keep q zs) ≤ length (keep p zs)
    le [] w = omega arith
    le (z ∷ zs) w = ground (arith, le zs (λ v i. w v (there i)), w z here)
length-keep-lt p q [] x wider m held gone = absurd (not-In-nil m)
