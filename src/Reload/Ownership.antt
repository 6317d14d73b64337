-- ===== src/Reload/Ownership.antt =====
-- framework/reload.py, `_check_ownership`: no path may belong to two apps.
use json_api_forge.Prelude.{
  ℕ, refl, sym, ap, subst, inl, inr, Bool, true, false, List, [], arith, Bool-cases, any, In,
  value_error, Result, ok, append_assoc, not-In-nil, In-cons, reject_if, passed, ◌≡◌, ◌∙◌, ◌⊎◌,
  ◌||◌, ◌∷◌, ◌++◌, ◌>>◌,
}
use json_api_forge.Prelude.Text.{
  Text, text_beq, text_beq_iff, starts_with, starts_with-append, starts_with→append,
}
use json_api_forge.Prelude.Parts.{rstrip}
use json_api_forge.Runtime.Manager.{is_slash, serves}

-- An app's configuration: Path(project.project_dir).name, what the reload reads, and a number for the
-- rest of it.
pub record Project : Type 0 where
  pub directory : Text
  pub slug : Text
  pub api_prefix : Text
  pub content : ℕ

abbrev pub prefix : Project → Text
prefix project = rstrip is_slash project.api_prefix

unfoldable pub conflicts : Project → Project → Bool
conflicts project other =
    text_beq project.slug other.slug
    || (text_beq (prefix project) (prefix other)
        || (starts_with (prefix project) (prefix other ++ 47 ∷ [])
            || starts_with (prefix other) (prefix project ++ 47 ∷ [])))

unfoldable pub check_ownership : List Project → Result (Unit {0})
check_ownership [] = ok tt
check_ownership (project ∷ projects) = do
  reject_if (any (λ other. conflicts project other) projects)
      (value_error "Reload contains conflicting app identities or API prefixes")
  check_ownership projects

-- Two prefixes of one path, each up to a slash: they are equal, or one goes on from the other.
nested :
    (a b t u : Text)
    → a ++ 47 ∷ t ≡ b ++ 47 ∷ u
    → text_beq a b ≡ true
      ⊎ (starts_with a (b ++ 47 ∷ []) ≡ true ⊎ starts_with b (a ++ 47 ∷ []) ≡ true)
unfolding starts_with
nested [] [] t u h = inl refl
nested [] (d ∷ b) t u h = let e : 47 ≡ d = cc h in inr (inr (ground arith))
nested (c ∷ a) [] t u h = let e : c ≡ 47 = cc h in inr (inl (ground arith))
nested (c ∷ a) (d ∷ b) t u h =
    let e : c ≡ d = cc h in
    let f : a ++ 47 ∷ t ≡ b ++ 47 ∷ u = cc h in ground (arith, nested a b t u f)

serves-cases :
    (path a : Text) → serves path a ≡ true → (path ≡ a) ⊎ ((t : Text) × (path ≡ a ++ 47 ∷ t))
unfolding serves
serves-cases path a h = elim (Bool-cases (text_beq path a)) [
  | inl same ↦ inl ((text_beq_iff path a).0 same)
  | inr differ ↦
      let below : starts_with path (a ++ 47 ∷ []) ≡ true = ground arith in
      let (t, e) = starts_with→append path (a ++ 47 ∷ []) below in
      inr (t, e ∙ append_assoc a (47 ∷ []) t)
]

starts-below : (a t : Text) → starts_with (a ++ 47 ∷ t) (a ++ 47 ∷ []) ≡ true
starts-below a t =
    ap (λ s. starts_with s (a ++ 47 ∷ [])) (sym (append_assoc a (47 ∷ []) t))
    ∙ starts_with-append (a ++ 47 ∷ []) t

-- Apps that both serve a path are in conflict.
conflicts-serves :
    (path : Text) (p q : Project)
    → serves path (prefix p) ≡ true
    → serves path (prefix q) ≡ true
    → conflicts p q ≡ true
unfolding conflicts
conflicts-serves path p q hp hq =
    both_ways (prefix p) (prefix q) (serves-cases path (prefix p) hp)
      (serves-cases path (prefix q) hq)
  where
    both_ways :
        (a b : Text)
        → (path ≡ a) ⊎ ((t : Text) × (path ≡ a ++ 47 ∷ t))
        → (path ≡ b) ⊎ ((t : Text) × (path ≡ b ++ 47 ∷ t))
        → (text_beq p.slug q.slug
            || (text_beq a b || (starts_with a (b ++ 47 ∷ []) || starts_with b (a ++ 47 ∷ []))))
          ≡ true
    both_ways a b (inl e) (inl f) = let same = (text_beq_iff a b).1 (sym e ∙ f) in ground arith
    both_ways a b (inl e) (inr (u, f)) =
        let below =
          subst (λ s. starts_with s (b ++ 47 ∷ []) ≡ true) (sym f ∙ e) (starts-below b u) in
        ground arith
    both_ways a b (inr (t, e)) (inl f) =
        let below =
          subst (λ s. starts_with s (a ++ 47 ∷ []) ≡ true) (sym e ∙ f) (starts-below a t) in
        ground arith
    both_ways a b (inr (t, e)) (inr (u, f)) = ground (arith, nested a b t u (sym e ∙ f))

any-In :
    (f : Project → Bool) (projects : List Project) (q : Project)
    → In q projects
    → any f projects ≡ false
    → f q ≡ false
any-In f [] q m h = absurd (not-In-nil m)
any-In f (p ∷ projects) q m h = elim (In-cons m) [
  | inl e ↦ ap f e ∙ ground arith
  | inr later ↦ any-In f projects q later (ground arith)
]

-- In a configuration that the check accepts, apps that serve one path are the same app.
pub owner_unique :
    (projects : List Project) (path : Text) (p q : Project)
    → check_ownership projects ≡ ok tt
    → In p projects
    → In q projects
    → serves path (prefix p) ≡ true
    → serves path (prefix q) ≡ true
    → p ≡ q
unfolding check_ownership
owner_unique [] path p q h m n sp sq = absurd (not-In-nil m)
owner_unique (r ∷ projects) path p q h m n sp sq =
    let (apart, rest) =
      passed (any (λ other. conflicts r other) projects) _ (check_ownership projects) h in
    elim (In-cons m) [
      | inl e ↦ elim (In-cons n) [
        | inl f ↦ e ∙ sym f
        | inr later ↦
            let clash =
              conflicts-serves path r q (subst (λ x. serves path (prefix x) ≡ true) e sp) sq in
            absurd (cc (clash, any-In (λ other. conflicts r other) projects q later apart))
      ]
      | inr later ↦ elim (In-cons n) [
        | inl f ↦
            let clash =
              conflicts-serves path r p (subst (λ x. serves path (prefix x) ≡ true) f sq) sp in
            absurd (cc (clash, any-In (λ other. conflicts r other) projects p later apart))
        | inr late ↦ owner_unique projects path p q rest later late sp sq
      ]
    ]
