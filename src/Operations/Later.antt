-- ===== src/Operations/Later.antt =====
-- The row of a call that went through, along later calls that come before it expires.
use json_api_forge.Prelude.{
  nat_eq, ℕ, refl, sym, ap, subst, inl, inr, true, false, List, [], map, ltb, Bool-cases, any, All,
  Error, runtime_error, http_error, err, Result-cases, ◌≡◌, ◌∙◌, ◌≢◌, ◌⊎◌, ◌||◌, ◌∷◌, ◌++◌,
}
use json_api_forge.Prelude.Text.{Text, text_eq}
use json_api_forge.Operations.Idempotency.{
  Entry, OperationConfig, Execution, Call, Store, Transaction, has_key, cleanup_due, cleaned_ids,
  swept, pending, completed_entry, finish, transact, settle, noted, execute_idempotent_operation,
  integrity_error, raised, done, conflict, fails, commits,
}
use json_api_forge.Operations.Kept.{ExpiredIds, FindsExpired, IsInTime, swept-IsHeld}
use json_api_forge.Operations.Committed.{serve, run, Holds, same_key, keyed-same, committed-Holds}

module _ {D V : Type 0} (config : Text → Text → OperationConfig) (dumps : V → Text)
    (loads : Text → V) (size : Text → ℕ) (expired_ids : ExpiredIds)
    (finds : FindsExpired expired_ids) where
  abbrev pub plan : Call D V → Store D → Transaction D V
  plan c s =
      transact config dumps loads size expired_ids c
        (swept config dumps loads size expired_ids c
          (cleaned_ids config dumps loads size expired_ids c
            (cleanup_due config dumps loads size expired_ids c s.cleanup_after).0 s.entries)
          s.entries)
        s.next_id s.data_

  -- A call is turned away before its transaction, or settles it.
  pub serve-cases :
      (c : Call D V) (s : Store D)
      → ((e : Error) × (serve config dumps loads size expired_ids finds c s ≡ (s, err e)))
        ⊎ (((config c.project_slug c.operation_name).transaction ≡ true)
            × (serve config dumps loads size expired_ids finds c s
                ≡ settle config dumps loads size expired_ids c
                    (noted config dumps loads size expired_ids c s)
                    (plan c s)))
  unfolding execute_idempotent_operation
  serve-cases c s = elim (Bool-cases (config c.project_slug c.operation_name).transaction) [
    | inr off ↦ inl (
      runtime_error "idempotent operation requires transaction=true",
      rw (off, execute_idempotent_operation) refl,
    )
    | inl on ↦ elim (Result-cases c.valid) [
      | inl (e, bad) ↦ inl (e, rw (on, execute_idempotent_operation) (rw bad refl))
      | inr (u, good) ↦ inr (on, rw (on, execute_idempotent_operation) (rw good refl))
    ]
  ]

  pub transact-conflict :
      (c : Call D V) (entries : List Entry) (id : ℕ) (d : D)
      → any (has_key config dumps loads size expired_ids c) entries ≡ true
      → transact config dumps loads size expired_ids c entries id d ≡ conflict
  unfolding transact
  transact-conflict c entries id d h = rw (h, transact) refl

  finish-commits :
      (c : Call D V) (entries after : List Entry) (d d' : D) (v w : V)
      → finish config dumps loads size expired_ids c entries d v ≡ commits after d' w
      → after ≡ map (completed_entry config dumps loads size expired_ids c (dumps w)) entries
  unfolding finish
  finish-commits c entries after d d' v w h =
      elim (Bool-cases (
        ltb (config c.project_slug c.operation_name).idempotency_max_response_bytes
          (size (dumps v)))) [
            | inl over ↦ absurd (fails-not_commits (rw (over, finish) at h))
            | inr fits ↦ committed (rw (fits, finish) at h)
          ]
    where
      fails-not_commits :
          fails (http_error 413 "Idempotent replay response exceeds idempotency_max_response_bytes")
          ≢ commits after d' w
      fails-not_commits k = cc k

      committed :
          commits
              (map (completed_entry config dumps loads size expired_ids c (dumps v)) entries)
              d
              v
            ≡ commits after d' w
          → after ≡ map (completed_entry config dumps loads size expired_ids c (dumps w)) entries
      committed k =
          let e : map (completed_entry config dumps loads size expired_ids c (dumps v)) entries
              ≡ after =
            cc k in
          let f : v ≡ w = cc k in
          sym e
          ∙ ap (λ x. map (completed_entry config dumps loads size expired_ids c (dumps x)) entries)
              f

  executed-commits :
      (c : Call D V) (x : Execution D V) (entries after : List Entry) (d' : D) (w : V)
      → elim x [
        | integrity_error ↦ conflict
        | raised e ↦ fails e
        | done d v ↦ finish config dumps loads size expired_ids c entries d v
      ]
        ≡ commits after d' w
      → after ≡ map (completed_entry config dumps loads size expired_ids c (dumps w)) entries
  executed-commits c integrity_error entries after d' w h = cc h
  executed-commits c (raised e) entries after d' w h = cc h
  executed-commits c (done d v) entries after d' w h = finish-commits c entries after d d' v w h

  pub transact-commits :
      (c : Call D V) (entries after : List Entry) (id : ℕ) (d d' : D) (w : V)
      → transact config dumps loads size expired_ids c entries id d ≡ commits after d' w
      → (any (has_key config dumps loads size expired_ids c) entries ≡ false)
        × (after
            ≡ map
                (completed_entry config dumps loads size expired_ids c (dumps w))
                (entries ++ pending config dumps loads size expired_ids c id ∷ []))
  unfolding transact
  transact-commits c entries after id d d' w h =
      elim (Bool-cases (any (has_key config dumps loads size expired_ids c) entries)) [
        | inl taken ↦ absurd (conflict-not_commits (rw (taken, transact) at h))
        | inr free ↦ (
          free,
          executed-commits c (c.execute d)
              (entries ++ pending config dumps loads size expired_ids c id ∷ []) after d' w
              (rw (free, transact) at h),
        )
      ]
    where
      conflict-not_commits : conflict ≢ commits after d' w
      conflict-not_commits k = cc k

  module _ (first : Call D V) (v : V) where
    settle-Holds :
        (c : Call D V) (s : Store D) (entries : List Entry) (t : Transaction D V)
        → transact config dumps loads size expired_ids c entries s.next_id s.data_ ≡ t
        → Holds config dumps loads size expired_ids finds first v s.entries
        → Holds config dumps loads size expired_ids finds first v entries
        → Holds config dumps loads size expired_ids finds first v
            (settle config dumps loads size expired_ids c s t).0.entries
    unfolding settle
    settle-Holds c s entries conflict e held swept_held = held
    settle-Holds c s entries (fails x) e held swept_held = held
    settle-Holds c s entries (commits after d w) e held swept_held =
        let (free, made) = transact-commits c entries after s.next_id s.data_ d w e in
        let apart : same_key config dumps loads size expired_ids finds c first ≡ false =
          elim (Bool-cases (same_key config dumps loads size expired_ids finds c first)) [
            | inl same ↦ absurd (cc (swept_held.present, free, any-same c entries same))
            | inr differ ↦ differ
          ] in
        subst (Holds config dumps loads size expired_ids finds first v) (sym made) (
          committed-Holds config dumps loads size expired_ids finds first v c (dumps w) entries
            s.next_id apart swept_held)
      where
        any-same :
            (c : Call D V) (entries : List Entry)
            → same_key config dumps loads size expired_ids finds c first ≡ true
            → any (has_key config dumps loads size expired_ids first) entries
              ≡ any (has_key config dumps loads size expired_ids c) entries
        any-same c [] same = refl
        any-same c (x ∷ entries) same =
            ap (λ b. b || any (has_key config dumps loads size expired_ids first) entries)
              (keyed-same config dumps loads size expired_ids finds c first x same)
            ∙ ap (λ b. has_key config dumps loads size expired_ids c x || b)
                (any-same c entries same)

    serve-Holds :
        (c : Call D V) (s : Store D)
        → IsInTime config dumps loads size expired_ids finds first (dumps v) c
        → Holds config dumps loads size expired_ids finds first v s.entries
        → Holds config dumps loads size expired_ids finds first v
            (serve config dumps loads size expired_ids finds c s).0.entries
    unfolding noted
    serve-Holds c s in_time held = elim (serve-cases c s) [
      | inl (e, away) ↦
          subst (λ r. Holds config dumps loads size expired_ids finds first v r.0.entries)
            (sym away) held
      | inr (on, settled) ↦
          subst (λ r. Holds config dumps loads size expired_ids finds first v r.0.entries)
            (sym settled)
            (settle-Holds c (noted config dumps loads size expired_ids c s)
              (swept config dumps loads size expired_ids c
                (cleaned_ids config dumps loads size expired_ids c
                  (cleanup_due config dumps loads size expired_ids c s.cleanup_after).0 s.entries)
                s.entries)
              (plan c s) refl held
              (swept-IsHeld config dumps loads size expired_ids finds first (dumps v) c
                (cleanup_due config dumps loads size expired_ids c s.cleanup_after).0 s.entries
                in_time held))
    ]

    pub run-Holds :
        (calls : List (Call D V)) (s : Store D)
        → All (IsInTime config dumps loads size expired_ids finds first (dumps v)) calls
        → Holds config dumps loads size expired_ids finds first v s.entries
        → Holds config dumps loads size expired_ids finds first v
            (run config dumps loads size expired_ids finds calls s).entries
    unfolding run
    run-Holds [] s in_time held = held
    run-Holds (c ∷ calls) s in_time held =
        run-Holds calls (serve config dumps loads size expired_ids finds c s).0 in_time.1
          (serve-Holds c s in_time.0 held)
