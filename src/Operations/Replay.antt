-- ===== src/Operations/Replay.antt =====
-- An operation runs once for a key: until its row expires, the same request is answered from the row.
use json_api_forge.Prelude.{
  nat_eq, ℕ, refl, sym, ap, inl, inr, true, false, some, List, [], arith, Bool-cases, any, All, In,
  here, there, ok, ◌≡◌, ◌∙◌, ◌||◌, ◌∷◌,
}
use json_api_forge.Prelude.Text.{Text, text_eq, text_beq, text_beq_iff}
use json_api_forge.Operations.Idempotency.{
  Entry, OperationConfig, Call, Store, response_of, has_key, cleanup_due, find, replay, settle,
  noted, execute_idempotent_operation, conflict,
}
use json_api_forge.Operations.Kept.{ExpiredIds, FindsExpired, IsCommitted, IsInTime, swept-IsHeld}
use json_api_forge.Operations.Committed.{serve, run, Holds, same_key, keyed-same}
use json_api_forge.Operations.Later.{plan, transact-conflict, run-Holds}
use json_api_forge.Operations.First.{first-Holds}

module _ {D V : Type 0} (config : Text → Text → OperationConfig) (dumps : V → Text)
    (loads : Text → V) (size : Text → ℕ) (expired_ids : ExpiredIds)
    (finds : FindsExpired expired_ids) where
  noted-data :
      (c : Call D V) (s : Store D) → (noted config dumps loads size expired_ids c s).data_ ≡ s.data_
  unfolding noted
  noted-data c s = refl

  noted-entries :
      (c : Call D V) (s : Store D)
      → (noted config dumps loads size expired_ids c s).entries ≡ s.entries
  unfolding noted
  noted-entries c s = refl

  any-same :
      (first again : Call D V) (entries : List Entry)
      → same_key config dumps loads size expired_ids finds again first ≡ true
      → any (has_key config dumps loads size expired_ids first) entries
        ≡ any (has_key config dumps loads size expired_ids again) entries
  any-same first again [] same = refl
  any-same first again (x ∷ entries) same =
      ap (λ b. b || any (has_key config dumps loads size expired_ids first) entries)
        (keyed-same config dumps loads size expired_ids finds again first x same)
      ∙ ap (λ b. has_key config dumps loads size expired_ids again x || b)
          (any-same first again entries same)

  find-some :
      (c : Call D V) (entries : List Entry)
      → any (has_key config dumps loads size expired_ids c) entries ≡ true
      → (e : Entry) × (find config dumps loads size expired_ids c entries ≡ some e)
        × In e entries
        × (has_key config dumps loads size expired_ids c e ≡ true)
  unfolding find
  find-some c [] h = cc h
  find-some c (x ∷ entries) h =
      elim (Bool-cases (has_key config dumps loads size expired_ids c x)) [
        | inl mine ↦ (x, rw mine refl, here, mine)
        | inr theirs ↦
            let later : any (has_key config dumps loads size expired_ids c) entries ≡ true =
              ground arith in
            let (e, f, i, k) = find-some c entries later in (e, rw (theirs, f) refl, there i, k)
      ]

  replay-committed :
      (first : Call D V) (v : V) (c : Call D V) (e : Entry)
      → IsCommitted config dumps loads size expired_ids finds first (dumps v) e
      → c.fingerprint ≡ first.fingerprint
      → replay config dumps loads size expired_ids c (some e) ≡ ok (loads (dumps v), true)
  unfolding replay response_of
  replay-committed first v c e good same =
      let asked : text_beq e.request_hash c.fingerprint ≡ true =
        (text_beq_iff e.request_hash c.fingerprint).1 (good.same_request ∙ sym same) in
      rw (asked, replay)
        (ap (λ b. response_of loads b e.response_json) good.is_complete
          ∙ ap (response_of loads true) good.has_response)

  served_again :
      (first : Call D V) (v : V) (again : Call D V) (t : Store D)
      → IsInTime config dumps loads size expired_ids finds first (dumps v) again
      → same_key config dumps loads size expired_ids finds again first ≡ true
      → again.fingerprint ≡ first.fingerprint
      → (config again.project_slug again.operation_name).transaction ≡ true
      → again.valid ≡ ok tt
      → Holds config dumps loads size expired_ids finds first v t.entries
      → serve config dumps loads size expired_ids finds again t
        ≡ (noted config dumps loads size expired_ids again t, ok (loads (dumps v), true))
  unfolding execute_idempotent_operation settle
  served_again first v again t timely key same on good held =
      let swept_held =
        swept-IsHeld config dumps loads size expired_ids finds first (dumps v) again
          (cleanup_due config dumps loads size expired_ids again t.cleanup_after).0 t.entries timely
          held in
      let planned : plan config dumps loads size expired_ids finds again t ≡ conflict =
        transact-conflict config dumps loads size expired_ids finds again _ t.next_id t.data_
          (sym (any-same first again _ key) ∙ swept_held.present) in
      let (e, f, i, k) =
        find-some again t.entries (sym (any-same first again t.entries key) ∙ held.present) in
      let answer : replay config dumps loads size expired_ids again
            (find config dumps loads size expired_ids again t.entries)
          ≡ ok (loads (dumps v), true) =
        ap (replay config dumps loads size expired_ids again) f
        ∙ replay-committed first v again e
            (held.committed e i
              (keyed-same config dumps loads size expired_ids finds again first e key ∙ k))
            same in
      rw (on, execute_idempotent_operation)
        (rw good (
          ap
            (settle config dumps loads size expired_ids again
              (noted config dumps loads size expired_ids again t))
            planned
          ∙ ap
              (λ es. (
                noted config dumps loads size expired_ids again t,
                replay config dumps loads size expired_ids again
                    (find config dumps loads size expired_ids again es),
              ))
              (noted-entries again t)
          ∙ ap (λ r. (noted config dumps loads size expired_ids again t, r)) answer))

  -- If a call ran its statements and was answered with `v`, and later calls, in any number and of any
  -- kind, come before its row expires as far as they are of the same operation: then a call with the
  -- same key and the same input in that time, which is valid and of an operation with a transaction, is
  -- answered with what JSON makes of `v`, marked as replayed, and leaves the database as it is. The
  -- SELECT of expired rows is taken to find the ids of such rows only.
  pub replayed_once :
      (first : Call D V) (v : V) (s s1 : Store D)
      → serve config dumps loads size expired_ids finds first s ≡ (s1, ok (v, false))
      → (later : List (Call D V))
      → All (IsInTime config dumps loads size expired_ids finds first (dumps v)) later
      → (again : Call D V)
      → IsInTime config dumps loads size expired_ids finds first (dumps v) again
      → same_key config dumps loads size expired_ids finds again first ≡ true
      → again.fingerprint ≡ first.fingerprint
      → (config again.project_slug again.operation_name).transaction ≡ true
      → again.valid ≡ ok tt
      → ((serve config dumps loads size expired_ids finds again
            (run config dumps loads size expired_ids finds later s1)).1
          ≡ ok (loads (dumps v), true))
        × ((serve config dumps loads size expired_ids finds again
              (run config dumps loads size expired_ids finds later s1)).0.data_
            ≡ (run config dumps loads size expired_ids finds later s1).data_)
  replayed_once first v s s1 went later in_time again timely key same on good =
      let t : Store D = run config dumps loads size expired_ids finds later s1 in
      let held =
        run-Holds config dumps loads size expired_ids finds first v later s1 in_time
          (first-Holds config dumps loads size expired_ids finds first v s s1 went) in
      let found = served_again first v again t timely key same on good held in
      (ap (λ r. r.1) found, ap (λ r. r.0.data_) found ∙ noted-data again t)
