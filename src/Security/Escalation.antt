-- ===== src/Security/Escalation.antt =====
-- Permission patterns are transitive: what a pattern grants, every pattern that grants it grants too.
use json_api_forge.Prelude.{
  ℕ, sym, ap, inl, inr, true, [], arith, Bool-cases, length, length-append, append_assoc,
  append-nil, ◌≡◌, ◌∙◌, ◌⊎◌, ◌∷◌, ◌++◌,
}
use json_api_forge.Prelude.Text.{
  Text, text_eq, text_beq, codes, text_beq_iff, starts_with, ends_with, drop_last,
  starts_with-append, starts_with→append, ends_with→append, ends_with-append, drop_last-append,
  append_last_inj,
}
use json_api_forge.Security.Permissions.{permission_matches}

-- The three ways in which `granted` can match.
abbrev Matches : Text → Text → Type 0
Matches granted required =
    (granted ≡ codes "*")
    ⊎ (granted ≡ required)
    ⊎ ((r : Text) × (t : Text) × (granted ≡ r ++ codes ".*") × (required ≡ (r ++ codes ".") ++ t))

drop_last_star : (r : Text) → drop_last (r ++ codes ".*") ≡ r ++ codes "."
unfolding drop_last
drop_last_star r = drop_last-append r 46 (42 ∷ [])

matches→Matches : (g q : Text) → permission_matches g q ≡ true → Matches g q
unfolding permission_matches
matches→Matches g q h = elim (Bool-cases (text_beq g (codes "*"))) [
  | inl star ↦ inl ((text_beq_iff g (codes "*")).0 star)
  | inr not_star ↦ elim (Bool-cases (text_beq g q)) [
    | inl same ↦ inr (inl ((text_beq_iff g q).0 same))
    | inr other ↦ inr (inr (pattern (ground arith) (ground arith)))
  ]
]
  where
    pattern :
        ends_with g (codes ".*") ≡ true
        → starts_with q (drop_last g) ≡ true
        → (r : Text) × (t : Text) × (g ≡ r ++ codes ".*") × (q ≡ (r ++ codes ".") ++ t)
    pattern e s =
        let (r, eg) = ends_with→append g (codes ".*") e in
        let (t, eq) = starts_with→append q (drop_last g) s in
        (r, t, eg, eq ∙ ap (λ (x : Text). x ++ t) (ap drop_last eg ∙ drop_last_star r))

pattern_matches : (r t : Text) → permission_matches (r ++ codes ".*") ((r ++ codes ".") ++ t) ≡ true
unfolding permission_matches
pattern_matches r t =
    let e : ends_with (r ++ codes ".*") (codes ".*") ≡ true = ends_with-append r (codes ".*") in
    let s : starts_with ((r ++ codes ".") ++ t) (drop_last (r ++ codes ".*")) ≡ true =
      rw drop_last_star (starts_with-append (r ++ codes ".") t) in
    ground arith

Matches→matches : (g q : Text) → Matches g q → permission_matches g q ≡ true
unfolding permission_matches
Matches→matches g q (inl star) = ground (arith, text_beq_iff g (codes "*"))
Matches→matches g q (inr (inl same)) = ground (arith, text_beq_iff g q)
Matches→matches g q (inr (inr (r, t, eg, eq))) = rw (eg, eq) (pattern_matches r t)

abbrev first : Text → ℕ
first [] = 0
first (a ∷ s) = a

dot-ne-star : (r t : Text) → (r ++ codes ".") ++ t ≡ codes "*" → ⊥
dot-ne-star [] t h = omega (arith, ap first h)
dot-ne-star (c ∷ r) t h = omega (
  arith,
  ap (λ (x : Text). length x) h,
  length-append (r ++ codes ".") t,
  length-append r (codes "."),
)

-- The part that one pattern fixes is a part of what a narrower pattern fixes.
narrower :
    (r s t : Text)
    → (r ++ codes ".") ++ t ≡ s ++ codes ".*"
    → (u : Text) × (s ++ codes "." ≡ (r ++ codes ".") ++ u)
narrower r s [] h =
    let dotted : r ++ 46 ∷ [] ≡ (s ++ 46 ∷ []) ++ 42 ∷ [] =
      sym (append-nil (r ++ codes ".")) ∙ h ∙ sym (append_assoc s (46 ∷ []) (42 ∷ [])) in
    absurd (omega (arith, append_last_inj r (s ++ 46 ∷ []) 46 42 dotted))
narrower r s (b ∷ t) h = (
  drop_last (b ∷ t),
  sym (drop_last_star s) ∙ ap drop_last (sym h) ∙ drop_last-append (r ++ codes ".") b t,
)

Matches-trans : (g p q : Text) → Matches g p → Matches p q → Matches g q
Matches-trans g p q (inl star) k = inl star
Matches-trans g p q (inr (inl same)) k = rw same k
Matches-trans g p q (inr (inr (r, t, eg, ep))) (inl star) = absurd (dot-ne-star r t (sym ep ∙ star))
Matches-trans g p q (inr (inr (r, t, eg, ep))) (inr (inl same)) =
    inr (inr (r, t, eg, sym same ∙ ep))
Matches-trans g p q (inr (inr (r, t, eg, ep))) (inr (inr (s, u, ep', eq))) =
    let (v, e) = narrower r s t (sym ep ∙ ep') in
    inr (inr (r, v ++ u, eg, eq ∙ ap (λ (x : Text). x ++ u) e ∙ append_assoc (r ++ codes ".") v u))

-- A pattern that grants a second pattern grants all that the second one grants.
pub permission_matches_trans :
    (g p q : Text)
    → permission_matches g p ≡ true
    → permission_matches p q ≡ true
    → permission_matches g q ≡ true
permission_matches_trans g p q h k =
    Matches→matches g q (Matches-trans g p q (matches→Matches g p h) (matches→Matches p q k))
