-- ===== src/Audit/Ledger.antt =====
-- framework/audit.py: where the events are that were submitted to an AuditWriter, step by step.
use json_api_forge.Prelude.{
  ℕ, refl, inl, inr, Bool, List, [], arith, ltb, leb, Bool-cases, length, ◌+◌, ◌≡◌, ◌∷◌, ◌++◌,
  if◌then◌else◌,
}
use json_api_forge.Audit.Writer.{
  Phase, collecting, writing, committed, ended, AuditWriter, Event, submits, takes, writes, fails,
  commits, releases, ends_wait, cancels, is_full, submit, take_from, take_one, start_writing,
  attempt_failed, fail, commit, release, step, run,
}

-- The task runs and no commit of its batch is under way.
abbrev pub IsUncommitted : Phase → Type 0
IsUncommitted collecting = Unit
IsUncommitted (writing i) = Unit
IsUncommitted (committed i) = ⊥
IsUncommitted ended = ⊥

module _ {A : Type 0} where
  -- The events that were submitted, in their order.
  abbrev pub submitted : List (Event A) → List A
  submitted [] = []
  submitted (submits value ∷ es) = value ∷ submitted es
  submitted (takes ∷ es) = submitted es
  submitted (writes ∷ es) = submitted es
  submitted (fails ∷ es) = submitted es
  submitted (commits ∷ es) = submitted es
  submitted (releases ∷ es) = submitted es
  submitted (ends_wait ∷ es) = submitted es
  submitted (cancels ∷ es) = submitted es

  -- Steps before `close` in which no connection fails after its transaction has committed.
  abbrev pub IsOrderly : List (Event A) → AuditWriter A → Type 0
  IsOrderly [] w = Unit
  IsOrderly (submits value ∷ es) w = IsOrderly es (step (submits value) w)
  IsOrderly (takes ∷ es) w = IsOrderly es (step takes w)
  IsOrderly (writes ∷ es) w = IsOrderly es (step writes w)
  IsOrderly (fails ∷ es) w = IsUncommitted w.phase × IsOrderly es (step fails w)
  IsOrderly (commits ∷ es) w = IsOrderly es (step commits w)
  IsOrderly (releases ∷ es) w = IsOrderly es (step releases w)
  IsOrderly (ends_wait ∷ es) w = ⊥
  IsOrderly (cancels ∷ es) w = ⊥

  -- What a failure gives up: the batch, after the last attempt.
  abbrev pub given_up : Phase → AuditWriter A → List A
  given_up collecting w = []
  given_up (writing i) w = if leb w.write_retries i then w.batch else []
  given_up (committed i) w = []
  given_up ended w = []

  -- The events that a step loses: one that a full queue refuses, and a batch that is given up.
  abbrev pub lost_by : Event A → AuditWriter A → List A
  lost_by (submits value) w = if is_full w then value ∷ [] else []
  lost_by takes w = []
  lost_by writes w = []
  lost_by fails w = given_up w.phase w
  lost_by commits w = []
  lost_by releases w = []
  lost_by ends_wait w = []
  lost_by cancels w = []

  unfoldable pub lost_before : List (Event A) → AuditWriter A → List A
  lost_before [] w = []
  lost_before (e ∷ es) w = lost_by e w ++ lost_before es (step e w)

  -- The events that are lost in all: those lost before the close, and those that it finds in the queue
  -- and in the batch.
  abbrev pub lost : List (Event A) → AuditWriter A → List A
  lost es w = lost_before es w ++ (run es w).queue ++ (run es w).batch

  abbrev pub count : (A → Bool) → List A → ℕ
  count p [] = 0
  count p (x ∷ xs) = (if p x then 1 else 0) + count p xs

  pub count-append : (p : A → Bool) (xs ys : List A) → count p (xs ++ ys) ≡ count p xs + count p ys
  count-append p [] ys = omega arith
  count-append p (x ∷ xs) ys = omega (arith, count-append p xs ys)

  -- What of the batch is not in the table.
  abbrev pub pending : Phase → List A → List A
  pending collecting batch = batch
  pending (writing i) batch = batch
  pending (committed i) batch = []
  pending ended batch = batch

  abbrev pub total : (A → Bool) → AuditWriter A → ℕ
  total p w = count p w.written + count p w.queue + count p (pending w.phase w.batch)

  -- From `w` to `w'` the events `new` came in, the events `out` were lost, and all other events kept.
  abbrev pub Kept : (A → Bool) → List A → List A → AuditWriter A → AuditWriter A → Type 0
  Kept p new out w w' =
      (total p w' + count p out ≡ total p w + count p new) × (w'.dropped ≡ w.dropped + length out)

  pub submit_kept :
      (p : A → Bool) (value : A) (w : AuditWriter A)
      → Kept p (value ∷ []) (if is_full w then value ∷ [] else []) w (submit value w)
  unfolding submit
  submit_kept p value w = elim (Bool-cases (is_full w)) [
    | inl full ↦ rw full (omega arith, omega arith)
    | inr room ↦ rw room (omega (arith, count-append p w.queue (value ∷ [])), omega arith)
  ]

  take_from_kept :
      (p : A → Bool) (q : List A) (w : AuditWriter A)
      → w.queue ≡ q
      → w.phase ≡ collecting
      → Kept p [] [] w (take_from q w)
  unfolding take_from
  take_from_kept p [] w e c = (refl, omega arith)
  take_from_kept p (x ∷ q) w e c = elim (Bool-cases (ltb (length w.batch) w.batch_size)) [
    | inl room ↦ rw (room, c, e) (omega (arith, count-append p w.batch (x ∷ [])), omega arith)
    | inr full ↦ rw full (refl, omega arith)
  ]

  pub take_one_kept :
      (p : A → Bool) (h : Phase) (w : AuditWriter A) → w.phase ≡ h → Kept p [] [] w (take_one h w)
  unfolding take_one
  take_one_kept p collecting w e = take_from_kept p w.queue w refl e
  take_one_kept p (writing i) w e = (refl, omega arith)
  take_one_kept p (committed i) w e = (refl, omega arith)
  take_one_kept p ended w e = (refl, omega arith)

  pub start_writing_kept :
      (p : A → Bool) (h : Phase) (batch : List A) (w : AuditWriter A)
      → w.phase ≡ h
      → Kept p [] [] w (start_writing h batch w)
  unfolding start_writing
  start_writing_kept p collecting [] w e = (refl, omega arith)
  start_writing_kept p collecting (x ∷ xs) w e = rw e (refl, omega arith)
  start_writing_kept p (writing i) batch w e = (refl, omega arith)
  start_writing_kept p (committed i) batch w e = (refl, omega arith)
  start_writing_kept p ended batch w e = (refl, omega arith)

  pub fail_kept :
      (p : A → Bool) (h : Phase) (w : AuditWriter A)
      → w.phase ≡ h
      → IsUncommitted h
      → Kept p [] (given_up h w) w (fail h w)
  unfolding fail attempt_failed
  fail_kept p collecting w e u = (refl, omega arith)
  fail_kept p (committed i) w e u = absurd u
  fail_kept p ended w e u = absurd u
  fail_kept p (writing i) w e u = elim (Bool-cases (leb w.write_retries i)) [
    | inl final ↦ rw (final, e) (omega arith, omega arith)
    | inr more ↦ rw (more, e) (omega arith, omega arith)
  ]

  pub commit_kept :
      (p : A → Bool) (h : Phase) (w : AuditWriter A) → w.phase ≡ h → Kept p [] [] w (commit h w)
  unfolding commit
  commit_kept p collecting w e = (refl, omega arith)
  commit_kept p (committed i) w e = (refl, omega arith)
  commit_kept p ended w e = (refl, omega arith)
  commit_kept p (writing i) w e =
      rw e (omega (arith, count-append p w.written w.batch), omega arith)

  pub release_kept :
      (p : A → Bool) (h : Phase) (w : AuditWriter A) → w.phase ≡ h → Kept p [] [] w (release h w)
  unfolding release
  release_kept p collecting w e = (refl, omega arith)
  release_kept p (writing i) w e = (refl, omega arith)
  release_kept p ended w e = (refl, omega arith)
  release_kept p (committed i) w e = rw e (omega arith, omega arith)
