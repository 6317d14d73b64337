-- ===== src/Operations/First.antt =====
-- The row that a call which ran its statements has committed.
use json_api_forge.Prelude.{
  nat_eq, ℕ, refl, sym, ap, subst, inl, inr, Bool, true, false, Option, none, some, List, [], map,
  arith, Bool-cases, any, In, here, In-append_right, In-append, http_error, Result, ok, err,
  not-In-nil, In-cons, ok_inj, ◌≡◌, ◌∙◌, ◌≢◌, ◌∷◌, ◌++◌,
}
use json_api_forge.Prelude.Text.{Text, text_eq, text_beq, text_beq_iff}
use json_api_forge.Operations.Idempotency.{
  Entry, OperationConfig, Call, Store, Transaction, response_of, has_key, cleanup_due, cleaned_ids,
  swept, pending, completed_entry, transact, find, replay, settle, noted, conflict, fails, commits,
}
use json_api_forge.Operations.Kept.{ExpiredIds, FindsExpired, any-In, IsCommitted}
use json_api_forge.Operations.Committed.{serve, Holds, In-completed, completed-key, any-completed}
use json_api_forge.Operations.Later.{plan, serve-cases, transact-commits}

any-In_false :
    (p : Entry → Bool) (entries : List Entry) (e : Entry)
    → any p entries ≡ false
    → In e entries
    → p e ≡ false
any-In_false p entries e none_ m = elim (Bool-cases (p e)) [
  | inl held ↦ absurd (cc (none_, any-In p entries e m held))
  | inr not_held ↦ not_held
]

module _ {D V : Type 0} (config : Text → Text → OperationConfig) (dumps : V → Text)
    (loads : Text → V) (size : Text → ℕ) (expired_ids : ExpiredIds)
    (finds : FindsExpired expired_ids) where
  module _ (first : Call D V) (v : V) where
    -- The answer of a call whose statements ran.
    abbrev ran : Result (V × Bool)
    ran = ok (v, false)

    pending-key :
        (id : ℕ)
        → has_key config dumps loads size expired_ids first
            (pending config dumps loads size expired_ids first id)
          ≡ true
    pending-key id = ground (
      arith,
      text_beq_iff first.project_slug first.project_slug,
      text_beq_iff first.operation_name first.operation_name,
      text_beq_iff first.digest first.digest,
    )

    completed-own :
        (o : Entry)
        → has_key config dumps loads size expired_ids first o ≡ true
        → o.request_hash ≡ first.fingerprint
        → IsCommitted config dumps loads size expired_ids finds first
            (dumps v)
            (completed_entry config dumps loads size expired_ids first (dumps v) o)
    unfolding completed_entry
    completed-own o mine same =
        rw (mine, completed_entry)
          (record { same_request = same; is_complete = refl; has_response = refl; is_dated = refl })

    committed-own :
        (entries : List Entry) (id : ℕ)
        → any (has_key config dumps loads size expired_ids first) entries ≡ false
        → Holds config dumps loads size expired_ids finds first v (
            map
              (completed_entry config dumps loads size expired_ids first (dumps v))
              (entries ++ pending config dumps loads size expired_ids first id ∷ []))
    committed-own entries id free = record {
      present =
          any-completed config dumps loads size expired_ids finds first v first (dumps v)
            (entries ++ pending config dumps loads size expired_ids first id ∷ []) first
          ∙ any-In (has_key config dumps loads size expired_ids first)
              (entries ++ pending config dumps loads size expired_ids first id ∷ [])
              (pending config dumps loads size expired_ids first id) (In-append_right entries here)
              (pending-key id);
      committed = λ e m k.
          let (o, i, h) =
            In-completed config dumps loads size expired_ids finds first v first (dumps v)
              (entries ++ pending config dumps loads size expired_ids first id ∷ []) e m in
          let k' : has_key config dumps loads size expired_ids first o ≡ true =
            sym (
              completed-key config dumps loads size expired_ids finds first v first (dumps v) o
                first)
            ∙ ap (has_key config dumps loads size expired_ids first) (sym h)
            ∙ k in
          let same : o.request_hash ≡ first.fingerprint =
            elim (In-append entries (pending config dumps loads size expired_ids first id ∷ []) i) [
              | inl old ↦ absurd (
                  cc (
                    k',
                    any-In_false (has_key config dumps loads size expired_ids first) entries o free
                        old,
                  ))
              | inr new ↦ elim (In-cons new) [
                | inl own ↦ ap (λ x. x.request_hash) own
                | inr nothing ↦ absurd (not-In-nil nothing)
              ]
            ] in
          subst (IsCommitted config dumps loads size expired_ids finds first (dumps v)) (sym h)
            (completed-own o k' same);
    }

    replay-flag : (o : Option Entry) → replay config dumps loads size expired_ids first o ≢ ran
    unfolding replay
    replay-flag none h = cc h
    replay-flag (some e) h = elim (Bool-cases (text_beq e.request_hash first.fingerprint)) [
      | inl same ↦ response-flag e.complete e.response_json (rw (same, replay) at h)
      | inr differ ↦ other-flag (rw (differ, replay) at h)
    ]
      where
        response-flag : (b : Bool) (r : Option Text) → response_of loads b r ≢ ran
        response-flag true none k = unfold response_of in cc k
        response-flag true (some t) k = unfold response_of in ground arith
        response-flag false r k = unfold response_of in cc k

        other-flag :
            err (http_error 409 "Idempotency key was already used with a different request payload")
            ≢ ran
        other-flag k = cc k

    settle-first :
        (s s1 : Store D) (entries : List Entry) (t : Transaction D V)
        → transact config dumps loads size expired_ids first entries s.next_id s.data_ ≡ t
        → settle config dumps loads size expired_ids first s t ≡ (s1, ok (v, false))
        → Holds config dumps loads size expired_ids finds first v s1.entries
    unfolding settle
    settle-first s s1 entries conflict e h =
        absurd
          (replay-flag (find config dumps loads size expired_ids first s.entries) (ap (λ r. r.1) h))
    settle-first s s1 entries (fails x) e h = let k : err x ≡ ran = ap (λ r. r.1) h in absurd (cc k)
    settle-first s s1 entries (commits after d w) e h =
        let (free, made) =
          transact-commits config dumps loads size expired_ids finds first entries after s.next_id
            s.data_ d w e in
        let same : after ≡ s1.entries = ap (λ r. r.0.entries) h in
        let value : (w, false) ≡ (v, false) = ok_inj (ap (λ r. r.1) h) in
        let result : w ≡ v = ap (λ p. p.0) value in
        subst (Holds config dumps loads size expired_ids finds first v) same (
          subst (Holds config dumps loads size expired_ids finds first v)
            (sym (
              made
              ∙ ap
                  (λ x.
                    map (completed_entry config dumps loads size expired_ids first (dumps x))
                      (entries ++ pending config dumps loads size expired_ids first s.next_id ∷ []))
                  result))
            (committed-own entries s.next_id free))

    pub first-Holds :
        (s s1 : Store D)
        → serve config dumps loads size expired_ids finds first s ≡ (s1, ok (v, false))
        → Holds config dumps loads size expired_ids finds first v s1.entries
    unfolding noted
    first-Holds s s1 went = elim (serve-cases config dumps loads size expired_ids finds first s) [
      | inl (e, away) ↦ let k : err e ≡ ran = ap (λ r. r.1) (sym away ∙ went) in absurd (cc k)
      | inr (on, settled) ↦
          settle-first (noted config dumps loads size expired_ids first s) s1
            (swept config dumps loads size expired_ids first
              (cleaned_ids config dumps loads size expired_ids first
                (cleanup_due config dumps loads size expired_ids first s.cleanup_after).0 s.entries)
              s.entries)
            (plan config dumps loads size expired_ids finds first s) refl (sym settled ∙ went)
    ]
