-- ===== src/Reload/Applied.antt =====
-- The configurations that take over in a reload.
use json_api_forge.Prelude.{
  ℕ, refl, sym, ap, subst, inl, inr, Bool, true, false, not, List, [], map, arith, nat_beq,
  Bool-cases, length, keep, In, contains, runtime_error, Result, ok, >>=-eq-ok, not-In-nil, In-cons,
  passed, ok_inj, ◌≡◌, ◌∙◌, ◌≢◌, ◌&&◌, ◌∷◌, ◌++◌, if◌then◌else◌, nat_eq, string_eq,
}
use json_api_forge.Prelude.Dict.{Dict}
use json_api_forge.Prelude.Text.{Text, text_eq}
use json_api_forge.Runtime.Manager.{serves}
use json_api_forge.Reload.Ownership.{Project, prefix, check_ownership, owner_unique}
use json_api_forge.Reload.Decide.{
  Surroundings, by_directory, retained, failed_existing, replaced, reconstructed, candidate,
  settled, change, attempt, unchanged, superseded, applies,
}

module _ (s : Surroundings) (current : List Project) where
  settled-applies :
      (signature sig : ℕ) (projects applied : List Project)
      → settled s signature projects ≡ ok (applies sig applied)
      → projects ≡ applied
  unfolding settled
  settled-applies signature sig projects applied went =
      let (after, ea, rest) = >>=-eq-ok s.signature_after _ went in
      applies-inj (
        subst
          (λ b.
            (if b then ok (applies signature projects) else ok superseded)
            ≡ ok (applies sig applied))
          (test (nat_beq signature after) rest) rest)
    where
      test :
          (b : Bool)
          → (if b then ok (applies signature projects) else ok superseded)
            ≡ ok (applies sig applied)
          → b ≡ true
      test true h = refl
      test false h = cc

      applies-inj : ok (applies signature projects) ≡ ok (applies sig applied) → projects ≡ applied
      applies-inj h =
          ap (λ o. elim o [ unchanged ↦ projects | superseded ↦ projects | applies n ps ↦ ps ])
            (ok_inj h)

  change-applies :
      (observed signature sig : ℕ) (applied : List Project)
      → change s current observed signature ≡ ok (applies sig applied)
      → candidate s current ≡ ok applied
  unfolding change
  change-applies observed signature sig applied went =
      elim (Bool-cases (nat_beq signature observed)) [
        | inl same ↦ absurd (unchanged-not_applies (rw same at went))
        | inr differ ↦
            let (projects, built, rest) = >>=-eq-ok (candidate s current) _ (rw differ at went) in
            built ∙ ap ok (settled-applies signature sig projects applied rest)
      ]
    where
      unchanged-not_applies : ok unchanged ≢ ok (applies sig applied)
      unchanged-not_applies h = cc

  attempt-applies :
      (observed sig : ℕ) (applied : List Project)
      → attempt s current observed ≡ ok (applies sig applied)
      → candidate s current ≡ ok applied
  unfolding attempt
  attempt-applies observed sig applied went =
      let (signature, e, rest) = >>=-eq-ok s.signature _ went in
      change-applies observed signature sig applied rest

  -- What a candidate has been checked for.
  pub record IsChecked (applied : List Project) : Type 0 where
    pub owners : check_ownership applied ≡ ok tt
    pub started : s.starts applied ≡ ok tt
    pub none_failed : failed_existing s applied ≡ []

  unit_ok : (r : Result (Unit {0})) (u : Unit {0}) → r ≡ ok u → r ≡ ok tt
  unit_ok r tt h = h

  length-zero : (names : List Text) → not (nat_beq (length names) 0) ≡ false → names ≡ []
  length-zero [] h = refl
  length-zero (n ∷ names) h = absurd (ground arith)

  reconstructed-IsChecked :
      (previous : Dict Text Project) (failed : List Text) (projects applied : List Project)
      → failed_existing s projects ≡ failed
      → check_ownership projects ≡ ok tt
      → s.starts projects ≡ ok tt
      → reconstructed s previous failed projects ≡ ok applied
      → IsChecked applied
  unfolding reconstructed
  reconstructed-IsChecked previous [] projects applied none_failed owners started went =
      subst IsChecked (ok_inj went)
        (record { owners = owners; started = started; none_failed = none_failed })
  reconstructed-IsChecked previous (slug ∷ failed) projects applied fails owners started went =
      let (again, ea, rest) = >>=-eq-ok (replaced previous (slug ∷ failed) projects) _ went in
      let (u, owned, rest) = >>=-eq-ok (check_ownership again) _ rest in
      let (v, went_up, rest) = >>=-eq-ok (s.starts again) _ rest in
      let (healthy, last) =
        passed (not (nat_beq (length (failed_existing s again)) 0))
          (runtime_error "Previous runtime could not be reconstructed") (ok again) rest in
      subst IsChecked (ok_inj last) (record {
        owners = unit_ok (check_ownership again) u owned;
        started = unit_ok (s.starts again) v went_up;
        none_failed = length-zero (failed_existing s again) healthy;
      })

  candidate-IsChecked :
      (applied : List Project) → candidate s current ≡ ok applied → IsChecked applied
  unfolding candidate
  candidate-IsChecked applied went =
      let (loaded, el, rest) = >>=-eq-ok s.loaded _ went in
      let extended = loaded.0 ++ retained (by_directory current) loaded.1 in
      let (u, owned, rest) = >>=-eq-ok (check_ownership extended) _ rest in
      let (v, went_up, rest) = >>=-eq-ok (s.starts extended) _ rest in
      reconstructed-IsChecked (by_directory current) (failed_existing s extended) extended applied
        refl (unit_ok (check_ownership extended) u owned) (unit_ok (s.starts extended) v went_up)
        rest

  -- When a reload takes over with a configuration, two of its apps that serve one request path are the
  -- same app.
  pub applied_owner_unique :
      (observed signature : ℕ) (applied : List Project)
      → attempt s current observed ≡ ok (applies signature applied)
      → (path : Text) (p q : Project) → In p applied
      → In q applied
      → serves path (prefix p) ≡ true
      → serves path (prefix q) ≡ true
      → p ≡ q
  applied_owner_unique observed signature applied went path p q =
      owner_unique applied path p q
        (candidate-IsChecked applied (attempt-applies observed signature applied went)).owners

  all_available :
      (whole : List Project) (p : Project) (projects : List Project)
      → map
          (λ p. p.slug)
          (keep
            (λ p. not (s.available whole p) && contains p.directory s.healthy_directories)
            projects)
        ≡ []
      → In p projects
      → contains p.directory s.healthy_directories ≡ true
      → s.available whole p ≡ true
  all_available whole p [] h m healthy = absurd (not-In-nil m)
  all_available whole p (q ∷ projects) h m healthy = elim (In-cons m) [
    | inl e ↦
        let held : contains q.directory s.healthy_directories ≡ true =
          ap (λ x. contains x.directory s.healthy_directories) (sym e) ∙ healthy in
        ap (s.available whole) e ∙ ground arith
    | inr later ↦ all_available whole p projects (ground arith) later healthy
  ]

  -- When a reload takes over with a configuration, an app of it whose directory ran before the reload is
  -- available in the new generation.
  pub applied_app_runs :
      (observed signature : ℕ) (applied : List Project)
      → attempt s current observed ≡ ok (applies signature applied)
      → (p : Project) → In p applied
      → contains p.directory s.healthy_directories ≡ true
      → s.available applied p ≡ true
  unfolding failed_existing
  applied_app_runs observed signature applied went p m healthy =
      all_available applied p applied
        (candidate-IsChecked applied (attempt-applies observed signature applied went)).none_failed
        m healthy
