-- ===== src/Operations/Committed.antt =====
-- A call of another key leaves the committed row of a call as it is.
use json_api_forge.Prelude.{
  nat_eq, ℕ, refl, sym, ap, subst, inl, inr, Bool, true, false, List, [], map, arith, Bool-cases,
  any, In, here, there, In-append, Result, not-In-nil, In-cons, ◌≡◌, ◌∙◌, ◌&&◌, ◌||◌, ◌∷◌, ◌++◌,
}
use json_api_forge.Prelude.Text.{Text, text_eq, text_beq, text_beq_iff}
use json_api_forge.Operations.Idempotency.{
  transact, pending, completed_entry, Transaction, Entry, OperationConfig, Call, Store, has_key,
  execute_idempotent_operation,
}
use json_api_forge.Operations.Kept.{IsCommitted, ExpiredIds, FindsExpired, IsHeld}

module _ {D V : Type 0} (config : Text → Text → OperationConfig) (dumps : V → Text)
    (loads : Text → V) (size : Text → ℕ) (expired_ids : ExpiredIds)
    (finds : FindsExpired expired_ids) where
  abbrev pub serve : Call D V → Store D → Store D × Result (V × Bool)
  serve = execute_idempotent_operation config dumps loads size expired_ids

  -- The store after calls one after the other.
  unfoldable pub run : List (Call D V) → Store D → Store D
  run [] s = s
  run (c ∷ calls) s = run calls (serve c s).0

  abbrev pub Holds : Call D V → V → List Entry → Type 0
  Holds first v = IsHeld config dumps loads size expired_ids finds first (dumps v)

  abbrev pub keyed : Call D V → Entry → Bool
  keyed = has_key config dumps loads size expired_ids

  -- Calls with the same project, operation and digest.
  abbrev pub same_key : Call D V → Call D V → Bool
  same_key c first =
      text_beq c.project_slug first.project_slug
      && (text_beq c.operation_name first.operation_name && text_beq c.digest first.digest)

  pub keyed-same :
      (c first : Call D V) (e : Entry) → same_key c first ≡ true → keyed first e ≡ keyed c e
  keyed-same c first e h =
      let a : c.project_slug ≡ first.project_slug = (text_beq_iff _ _).0 (ground arith) in
      let b : c.operation_name ≡ first.operation_name = (text_beq_iff _ _).0 (ground arith) in
      let d : c.digest ≡ first.digest = (text_beq_iff _ _).0 (ground arith) in cc (a, b, d)

  keyed-apart :
      (c first : Call D V) (e : Entry)
      → same_key c first ≡ false
      → keyed first e ≡ true
      → keyed c e ≡ false
  keyed-apart c first e h k = ground (
    arith,
    text_beq_iff e.project_slug c.project_slug,
    text_beq_iff e.project_slug first.project_slug,
    text_beq_iff c.project_slug first.project_slug,
    text_beq_iff e.operation_name c.operation_name,
    text_beq_iff e.operation_name first.operation_name,
    text_beq_iff c.operation_name first.operation_name,
    text_beq_iff e.key_hash c.digest,
    text_beq_iff e.key_hash first.digest,
    text_beq_iff c.digest first.digest,
  )

  module _ (first : Call D V) (v : V) where
    -- A committed row of another key changes nothing.
    abbrev pub tx : Call D V → List Entry → ℕ → D → Transaction D V
    tx = transact config dumps loads size expired_ids

    pub In-completed :
        (c : Call D V) (payload : Text) (entries : List Entry) (e : Entry)
        → In e (map (completed_entry config dumps loads size expired_ids c payload) entries)
        → (o : Entry) × In o entries
          × (e ≡ completed_entry config dumps loads size expired_ids c payload o)
    In-completed c payload [] e m = absurd (not-In-nil m)
    In-completed c payload (x ∷ entries) e m = elim (In-cons m) [
      | inl same ↦ (x, here, same)
      | inr later ↦ let (o, i, h) = In-completed c payload entries e later in (o, there i, h)
    ]

    completed-other :
        (c : Call D V) (payload : Text) (o : Entry)
        → keyed c o ≡ false
        → completed_entry config dumps loads size expired_ids c payload o ≡ o
    unfolding completed_entry
    completed-other c payload o h = rw (h, completed_entry) refl

    pub completed-key :
        (c : Call D V) (payload : Text) (o : Entry) (other : Call D V)
        → keyed other (completed_entry config dumps loads size expired_ids c payload o)
          ≡ keyed other o
    unfolding completed_entry
    completed-key c payload o other = elim (Bool-cases (keyed c o)) [
      | inl mine ↦ rw (mine, completed_entry) refl
      | inr theirs ↦ rw (theirs, completed_entry) refl
    ]

    pub any-completed :
        (c : Call D V) (payload : Text) (entries : List Entry) (other : Call D V)
        → any
            (keyed other)
            (map (completed_entry config dumps loads size expired_ids c payload) entries)
          ≡ any (keyed other) entries
    any-completed c payload [] other = refl
    any-completed c payload (x ∷ entries) other =
        ap
          (λ b.
            b
            || any (keyed other)
                (map (completed_entry config dumps loads size expired_ids c payload) entries))
          (completed-key c payload x other)
        ∙ ap (λ b. keyed other x || b) (any-completed c payload entries other)

    any-append_left :
        (p : Entry → Bool) (xs ys : List Entry) → any p xs ≡ true → any p (xs ++ ys) ≡ true
    any-append_left p [] ys h = cc
    any-append_left p (x ∷ xs) ys h = elim (Bool-cases (p x)) [
      | inl held ↦ rw held refl
      | inr not_held ↦ let k = any-append_left p xs ys (ground arith) in ground arith
    ]

    pub committed-Holds :
        (c : Call D V) (payload : Text) (entries : List Entry) (id : ℕ)
        → same_key c first ≡ false
        → Holds first v entries
        → Holds first v (
            map
              (completed_entry config dumps loads size expired_ids c payload)
              (entries ++ pending config dumps loads size expired_ids c id ∷ []))
    committed-Holds c payload entries id apart held = record {
      present =
          any-completed c payload (entries ++ pending config dumps loads size expired_ids c id ∷ [])
            first
          ∙ any-append_left (keyed first) entries
              (pending config dumps loads size expired_ids c id ∷ []) held.present;
      committed = λ e m k.
          let (o, i, h) =
            In-completed c payload
              (entries ++ pending config dumps loads size expired_ids c id ∷ []) e m in
          let k' : keyed first o ≡ true =
            sym (completed-key c payload o first) ∙ ap (keyed first) (sym h) ∙ k in
          let stays = completed-other c payload o (keyed-apart c first o apart k') in
          let e_o : e ≡ o = h ∙ stays in
          elim (In-append entries (pending config dumps loads size expired_ids c id ∷ []) i) [
            | inl old ↦
                subst (λ x. IsCommitted config dumps loads size expired_ids finds first (dumps v) x)
                  (sym e_o) (held.committed o old k')
            | inr new ↦ elim (In-cons new) [
              | inl own ↦ absurd (new_other (sym (ap (keyed first) own) ∙ k'))
              | inr nothing ↦ absurd (not-In-nil nothing)
            ]
          ];
    }
      where
        new_other : keyed first (pending config dumps loads size expired_ids c id) ≡ true → ⊥
        new_other h = cc (h, apart)
