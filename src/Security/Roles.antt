-- ===== src/Security/Roles.antt =====
-- `_expand_role_permissions` ends for every table of roles, cyclic ones included, and returns exactly
-- the permissions of the roles that are reached by inheritance.
use json_api_forge.Prelude.{
  ℕ, zero, suc, refl, sym, ap, subst, inl, inr, false, Option, none, some, List, [], arith,
  Bool-cases, Option-cases, length, In, here, there, In-append_left, In-append_right, In-append,
  contains, contains-In, not-In-nil, In-cons, ◌+◌, ◌<◌, ◌≡◌, ◌↔◌, ◌∷◌, ◌++◌, nat_eq, string_eq,
}
use json_api_forge.Prelude.Dict.{Dict, lookup}
use json_api_forge.Prelude.Text.{Text, text_eq}
use json_api_forge.Security.Permissions.{Role, Walk, enter, walk, expand_role_permissions}
use json_api_forge.Security.Walks.{
  Holds, Grants, unseen, unseen_cons, Done, Sound, Post, Finishes, walk_all_lem, requested_role,
  inherited,
}

module _ (roles : Dict Text Role) where
  -- Entering a role that is not seen yet and has no definition.
  Post-undefined :
      (role : Text) (w : Walk)
      → lookup role roles ≡ none
      → Post roles w (record w { seen = role ∷ w.seen }) (role ∷ [])
  Post-undefined role w gone = record {
    seen_kept = λ x m. there m;
    out_kept = λ q m. m;
    entered =
        λ r m. elim (In-cons m) [ inl e ↦ rw e here | inr nothing ↦ absurd (not-In-nil nothing) ];
    finished = λ x m. elim (In-cons m) [
      | inl e ↦ inr (λ spec found. cc (gone, found, e))
      | inr old ↦ inl old
    ];
    sound = λ requested s h. record {
      seen_held =
          λ x m. elim (In-cons m) [ inl e ↦ rw e (h role here) | inr old ↦ s.seen_held x old ];
      out_granted = s.out_granted;
    };
  }

  -- Entering a defined role, and walking over what it inherits.
  Post-defined :
      (role : Text) (w w' : Walk) (spec : Role)
      → lookup role roles ≡ some spec
      → Post roles
          (record { seen = role ∷ w.seen; out = spec.permissions ++ w.out })
          w'
          spec.inherits
      → Post roles w w' (role ∷ [])
  Post-defined role w w' spec found p = record {
    seen_kept = λ x m. p.seen_kept x (there m);
    out_kept = λ q m. p.out_kept q (In-append_right spec.permissions m);
    entered = λ r m. elim (In-cons m) [
      | inl e ↦ rw e (p.seen_kept role here)
      | inr nothing ↦ absurd (not-In-nil nothing)
    ];
    finished = λ x m. elim (p.finished x m) [
      | inl before ↦ elim (In-cons before) [
        | inl e ↦
            let whole : Done roles w' role = λ s d.
              let same : spec ≡ s = cc (found, d) in
              (
                λ y i. p.entered y (rw same i),
                λ q i. p.out_kept q (In-append_left w.out (rw same i)),
              ) in
            inr (subst (λ (y : Text). Done roles w' y) (sym e) whole)
        | inr old ↦ inl old
      ]
      | inr d ↦ inr d
    ];
    sound = λ requested s h.
        p.sound requested
          (record {
            seen_held = λ x m. elim (In-cons m) [
              | inl e ↦ rw e (h role here)
              | inr old ↦ s.seen_held x old
            ];
            out_granted = λ q m. elim (In-append spec.permissions w.out m) [
              | inl mine ↦ record {
                role = role;
                spec = spec;
                held = h role here;
                defined = found;
                granted = mine;
              }
              | inr old ↦ s.out_granted q old
            ];
          })
          (λ r m. inherited spec (h role here) found m);
  }

  Post-seen : (r : Text) (w : Walk) → In r w.seen → Post roles w w (r ∷ [])
  Post-seen r w old = record {
    seen_kept = λ x m. m;
    out_kept = λ q m. m;
    entered =
        λ x m. elim (In-cons m) [ inl e ↦ rw e old | inr nothing ↦ absurd (not-In-nil nothing) ];
    finished = λ x m. inl m;
    sound = λ requested s h. s;
  }

  -- the branch of `walk` for a role that is not seen yet
  enter_lem :
      (f : Text → Walk → Option Walk) (k : ℕ)
      → Finishes roles f k
      → (r : Text) (w : Walk) → unseen roles roles w.seen < suc k
      → contains r w.seen ≡ false
      → (w' : Walk) × (enter f (lookup r roles) (record w { seen = r ∷ w.seen }) ≡ some w')
        × Post roles w w' (r ∷ [])
  unfolding enter
  enter_lem f k fin r w h new = elim (Option-cases (lookup r roles)) [
    | inl gone ↦ (record w { seen = r ∷ w.seen }, rw (gone, enter), Post-undefined r w gone)
    | inr (spec, found) ↦
        let start : Walk = record { seen = r ∷ w.seen; out = spec.permissions ++ w.out } in
        let less : unseen roles roles (r ∷ w.seen) < k =
          omega (arith, unseen_cons roles roles w.seen r spec found new) in
        let (w', e, p) = walk_all_lem roles f k fin spec.inherits start less in
        (w', rw (found, enter) e, Post-defined r w w' spec found p)
  ]

  walk_lem : (depth : ℕ) → Finishes roles (walk roles depth) depth
  unfolding walk
  walk_lem zero r w h = absurd (omega arith)
  walk_lem (suc depth) r w h = elim (Bool-cases (contains r w.seen)) [
    | inl old ↦ (w, rw old, Post-seen r w (contains-In r w.seen old))
    | inr new ↦
        let (w', e, p) = enter_lem (walk roles depth) depth (walk_lem depth) r w h new in
        (w', rw new e, p)
  ]

  unseen_nil : (d : Dict Text Role) → unseen roles d [] ≡ length d
  unfolding unseen
  unseen_nil [] = refl
  unseen_nil ((r, spec) ∷ d) = ap suc (unseen_nil d)

  -- Every role that is held is seen by the walk over what was requested.
  Holds-seen :
      (w : Walk) (requested : List Text)
      → Post roles (record { seen = []; out = [] }) w requested
      → {r : Text} → Holds roles requested r
      → In r w.seen
  Holds-seen w requested p (requested_role {r} m) = p.entered r m
  Holds-seen w requested p (inherited {r} {p = q} spec h found m) =
      elim (p.finished r (Holds-seen w requested p h)) [
        | inl nothing ↦ absurd (not-In-nil nothing)
        | inr d ↦ (d spec found).0 q m
      ]

  -- The walk ends, and a permission is among its results exactly when a role that is requested, or
  -- inherited in any number of steps, has it.
  pub expand_role_permissions_exact :
      (requested : List Text)
      → (out : List Text) × (expand_role_permissions roles requested ≡ some out)
        × ((q : Text) → In q out ↔ Grants roles requested q)
  unfolding expand_role_permissions
  expand_role_permissions_exact requested =
      let start : Walk = record { seen = []; out = [] } in
      let less : unseen roles roles [] < length roles + 2 = omega (arith, unseen_nil roles) in
      let (w, e, p) =
        walk_all_lem roles (walk roles (length roles + 2)) (length roles + 2)
          (walk_lem (length roles + 2)) requested start less in
      let sound : Sound roles requested w =
        p.sound requested
          (record {
            seen_held = λ x m. absurd (not-In-nil m);
            out_granted = λ q m. absurd (not-In-nil m);
          })
          (λ r m. requested_role m) in
      (
        w.out,
        rw (e, expand_role_permissions),
        λ q. (
          sound.out_granted q,
          λ g. elim (p.finished g.role (Holds-seen w requested p g.held)) [
            | inl nothing ↦ absurd (not-In-nil nothing)
            | inr d ↦ (d g.spec g.defined).1 q g.granted
          ],
        ),
      )
