-- ===== src/Security/Walks.antt =====
-- What the walk of `_expand_role_permissions` has done after it entered some roles, and how two such
-- walks follow each other.
use json_api_forge.Prelude.{
  ℕ, suc, refl, sym, subst, inl, inr, false, Option, some, List, [], arith, Bool-cases, In, here,
  there, contains, In-contains, contains-In, not-In-nil, In-cons, ◌≤◌, ◌<◌, ◌≡◌, ◌⊎◌, ◌∷◌,
  if◌then◌else◌, ◌==◌, nat_eq, string_eq,
}
use json_api_forge.Prelude.Dict.{Dict, lookup}
use json_api_forge.Prelude.Text.{Text, text_eq}
use json_api_forge.Security.Permissions.{Role, Walk, walk_all}

-- A role that is held: requested, or inherited by one that is held.
pub data Holds (roles : Dict Text Role) (requested : List Text) : Text → Type 0 where
  requested_role : {r : Text} → In r requested → Holds roles requested r
  inherited :
      {r p : Text} (spec : Role)
      → Holds roles requested r
      → lookup r roles ≡ some spec
      → In p spec.inherits
      → Holds roles requested p

pub record Grants (roles : Dict Text Role) (requested : List Text) (q : Text) : Type 0 where
  pub role : Text
  pub spec : Role
  pub held : Holds roles requested role
  pub defined : lookup role roles ≡ some spec
  pub granted : In q spec.permissions

module _ (roles : Dict Text Role) where
  -- how many defined roles the walk has not entered
  unfoldable pub unseen : Dict Text Role → List Text → ℕ
  unseen [] seen = 0
  unseen ((r, spec) ∷ d) seen = if contains r seen then unseen d seen else suc (unseen d seen)

  pub unseen_mono :
      (d : Dict Text Role) (seen more : List Text)
      → ((x : Text) → In x seen → In x more)
      → unseen d more ≤ unseen d seen
  unfolding unseen
  unseen_mono [] seen more h = omega arith
  unseen_mono ((r, spec) ∷ d) seen more h = elim (Bool-cases (contains r seen)) [
    | inl old ↦ rw (old, In-contains (h r (contains-In r seen old))) (unseen_mono d seen more h)
    | inr new ↦ rw new (ground (arith, unseen_mono d seen more h))
  ]

  pub unseen_cons :
      (d : Dict Text Role) (seen : List Text) (r : Text) (spec : Role)
      → lookup r d ≡ some spec
      → contains r seen ≡ false
      → unseen d (r ∷ seen) < unseen d seen
  unfolding unseen lookup
  unseen_cons [] seen r spec h n = cc
  unseen_cons ((k, s) ∷ d) seen r spec h n = elim (Bool-cases (k == r)) [
    | inl same ↦
        let e : k ≡ r = (text_eq.beq_iff k r).0 same in
        rw (same, subst (λ (x : Text). contains x seen ≡ false) (sym e) n)
          (omega (arith, unseen_mono d seen (r ∷ seen) (λ x m. there m)))
    | inr other ↦ rw other (ground (arith, unseen_cons d seen r spec (rw other at h) n))
  ]

  -- What a finished walk has done for a role that it entered.
  abbrev pub Done : Walk → Text → Type 0
  Done w x =
      (spec : Role)
      → lookup x roles ≡ some spec
      → ((p : Text) → In p spec.inherits → In p w.seen)
        × ((q : Text) → In q spec.permissions → In q w.out)

  pub record Sound (requested : List Text) (w : Walk) : Type 0 where
    pub seen_held : (x : Text) → In x w.seen → Holds roles requested x
    pub out_granted : (q : Text) → In q w.out → Grants roles requested q

  -- From `w` to `w'` the walk has entered the roles `rs` and finished every role it entered anew.
  pub record Post (w w' : Walk) (rs : List Text) : Type 0 where
    pub seen_kept : (x : Text) → In x w.seen → In x w'.seen
    pub out_kept : (q : Text) → In q w.out → In q w'.out
    pub entered : (r : Text) → In r rs → In r w'.seen
    pub finished : (x : Text) → In x w'.seen → In x w.seen ⊎ Done w' x
    pub sound :
        (requested : List Text)
        → Sound requested w
        → ((r : Text) → In r rs → Holds roles requested r)
        → Sound requested w'

  pub Post-refl : (w : Walk) → Post w w []
  Post-refl w = record {
    seen_kept = λ x m. m;
    out_kept = λ q m. m;
    entered = λ r m. absurd (not-In-nil m);
    finished = λ x m. inl m;
    sound = λ requested s h. s;
  }

  pub Done-mono :
      (w w' : Walk) (x : Text)
      → ((y : Text) → In y w.seen → In y w'.seen)
      → ((q : Text) → In q w.out → In q w'.out)
      → Done w x
      → Done w' x
  Done-mono w w' x hs ho d spec e =
      let (a, b) = d spec e in (λ p m. hs p (a p m), λ q m. ho q (b q m))

  pub Post-trans :
      (w w1 w2 : Walk) (r : Text) (rs : List Text)
      → Post w w1 (r ∷ [])
      → Post w1 w2 rs
      → Post w w2 (r ∷ rs)
  Post-trans w w1 w2 r rs a b = record {
    seen_kept = λ x m. b.seen_kept x (a.seen_kept x m);
    out_kept = λ q m. b.out_kept q (a.out_kept q m);
    entered = λ p m. elim (In-cons m) [
      | inl e ↦ rw e (b.seen_kept r (a.entered r here))
      | inr later ↦ b.entered p later
    ];
    finished = λ x m. elim (b.finished x m) [
      | inl before ↦ elim (a.finished x before) [
        | inl old ↦ inl old
        | inr d ↦ inr (Done-mono w1 w2 x b.seen_kept b.out_kept d)
      ]
      | inr d ↦ inr d
    ];
    sound = λ requested s h.
        b.sound requested
          (a.sound requested s (λ p m. elim (In-cons m) [
            | inl e ↦ rw e (h r here)
            | inr none_left ↦ absurd (not-In-nil none_left)
          ]))
          (λ p m. h p (there m));
  }

  -- `f` finishes the walk from a role, when fewer than `k` roles are left to enter.
  abbrev pub Finishes : (Text → Walk → Option Walk) → ℕ → Type 0
  Finishes f k =
      (r : Text) (w : Walk)
      → unseen roles w.seen < k
      → (w' : Walk) × (f r w ≡ some w') × Post w w' (r ∷ [])

  pub walk_all_lem :
      (f : Text → Walk → Option Walk) (k : ℕ)
      → Finishes f k
      → (rs : List Text) (w : Walk) → unseen roles w.seen < k
      → (w' : Walk) × (walk_all f rs w ≡ some w') × Post w w' rs
  unfolding walk_all
  walk_all_lem f k fin [] w h = (w, refl, Post-refl w)
  walk_all_lem f k fin (r ∷ rs) w h =
      let (w1, e1, p1) = fin r w h in
      let less : unseen roles w1.seen < k =
        omega (arith, unseen_mono roles w.seen w1.seen p1.seen_kept) in
      let (w2, e2, p2) = walk_all_lem f k fin rs w1 less in
      (w2, rw (e1, walk_all) e2, Post-trans w w1 w2 r rs p1 p2)
