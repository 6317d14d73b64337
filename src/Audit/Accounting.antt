-- ===== src/Audit/Accounting.antt =====
-- framework/audit.py: no audit event is lost without being counted.
use json_api_forge.Prelude.{
  ℕ, refl, ap, inl, inr, Bool, true, List, [], arith, Bool-cases, length, length-append, ◌+◌, ◌≡◌,
  ◌∙◌, ◌∷◌, ◌++◌, ◌&&◌,
}
use json_api_forge.Audit.Writer
use json_api_forge.Audit.Writer.{
  Phase, collecting, writing, committed, ended, AuditWriter, Event, submits, takes, writes, fails,
  commits, releases, ends_wait, cancels, is_empty, is_full, submit, take_from, take_one,
  start_writing, attempt_failed, fail, commit, release, end_wait, cancel, step, run, close,
}
use json_api_forge.Audit.Ledger.{
  submitted, IsUncommitted, IsOrderly, lost_by, lost_before, lost, count, count-append, pending,
  Kept, submit_kept, take_one_kept, start_writing_kept, fail_kept, commit_kept, release_kept,
}

abbrev IsRunning : Phase → Type 0
IsRunning collecting = Unit
IsRunning (writing i) = Unit
IsRunning (committed i) = Unit
IsRunning ended = ⊥

module _ {A : Type 0} where
  -- A step and the steps after it.
  after :
      (p : A → Bool) (e : Event A) (es : List (Event A)) (w : AuditWriter A) (new : List A)
      → Kept p new (lost_by e w) w (step e w)
      → Kept p (submitted es) (lost_before es (step e w)) (step e w) (run es (step e w))
      → Kept p (new ++ submitted es) (lost_before (e ∷ es) w) w (run (e ∷ es) w)
  unfolding run lost_before
  after p e es w new h k = (
    omega (
      arith,
      h.0,
      k.0,
      count-append p new (submitted es),
      count-append p (lost_by e w) (lost_before es (step e w)),
    ),
    omega (arith, h.1, k.1, length-append (lost_by e w) (lost_before es (step e w))),
  )

  run_kept :
      (p : A → Bool) (es : List (Event A)) (w : AuditWriter A)
      → IsOrderly es w
      → Kept p (submitted es) (lost_before es w) w (run es w)
  unfolding step
  run_kept p [] w h = unfold run in unfold lost_before in (refl, omega arith)
  run_kept p (submits value ∷ es) w h =
      after p (submits value) es w (value ∷ []) (submit_kept p value w) (run_kept p es _ h)
  run_kept p (takes ∷ es) w h =
      after p takes es w [] (take_one_kept p w.phase w refl) (run_kept p es _ h)
  run_kept p (writes ∷ es) w h =
      after p writes es w [] (start_writing_kept p w.phase w.batch w refl) (run_kept p es _ h)
  run_kept p (fails ∷ es) w h =
      after p fails es w [] (fail_kept p w.phase w refl h.0) (run_kept p es _ h.1)
  run_kept p (commits ∷ es) w h =
      after p commits es w [] (commit_kept p w.phase w refl) (run_kept p es _ h)
  run_kept p (releases ∷ es) w h =
      after p releases es w [] (release_kept p w.phase w refl) (run_kept p es _ h)
  run_kept p (ends_wait ∷ es) w h = absurd h
  run_kept p (cancels ∷ es) w h = absurd h

  length-is_empty : (xs : List A) → is_empty xs ≡ true → length xs ≡ 0
  length-is_empty [] h = refl
  length-is_empty (x ∷ xs) h = cc

  end_wait_counts :
      (w : AuditWriter A)
      → ((end_wait w).dropped ≡ w.dropped + length w.queue)
        × ((end_wait w).batch ≡ w.batch)
        × ((end_wait w).written ≡ w.written)
  unfolding end_wait
  end_wait_counts w = elim (Bool-cases (is_empty w.queue && is_empty w.batch)) [
    | inl drained ↦ rw drained (omega (arith, length-is_empty w.queue (ground arith)), refl, refl)
    | inr timed_out ↦ rw timed_out (refl, refl, refl)
  ]

  cancel_counts :
      (h : Phase) (w : AuditWriter A)
      → IsRunning h
      → ((cancel h w).dropped ≡ w.dropped + length w.batch) × ((cancel h w).written ≡ w.written)
  unfolding cancel
  cancel_counts collecting w r = (refl, refl)
  cancel_counts (writing i) w r = (refl, refl)
  cancel_counts (committed i) w r = (refl, refl)
  cancel_counts ended w r = absurd r

  -- The close counts what is queued and what is in the batch, and writes nothing.
  close_counts :
      (w : AuditWriter A)
      → IsRunning w.phase
      → ((close w).dropped ≡ w.dropped + length w.queue + length w.batch)
        × ((close w).written ≡ w.written)
  unfolding close
  close_counts w r =
      let (dropped, batch, written) = end_wait_counts w in
      let (counted, same) = cancel_counts w.phase (end_wait w) r in
      (omega (arith, counted, dropped, ap (λ (b : List A). length b) batch), same ∙ written)

  -- After the close: `dropped` is the number of lost events, and the table and the lost ones make up
  -- what was submitted, with what of the batch the table held already.
  closed_ledger :
      (p : A → Bool) (max_queue batch_size write_retries : ℕ) (es : List (Event A))
      → IsOrderly es (Writer.init max_queue batch_size write_retries)
      → IsRunning (run es (Writer.init max_queue batch_size write_retries)).phase
      → ((close (run es (Writer.init max_queue batch_size write_retries))).dropped
          ≡ length (lost es (Writer.init max_queue batch_size write_retries)))
        × (count p (close (run es (Writer.init max_queue batch_size write_retries))).written
              + count p (lost es (Writer.init max_queue batch_size write_retries))
              + count p (
                  pending
                    (run es (Writer.init max_queue batch_size write_retries)).phase
                    (run es (Writer.init max_queue batch_size write_retries)).batch)
            ≡ count p (submitted es)
              + count p (run es (Writer.init max_queue batch_size write_retries)).batch)
  unfolding Writer.init
  closed_ledger p max_queue batch_size write_retries es o r =
      let first = Writer.init max_queue batch_size write_retries in
      let last = run es first in
      let out = lost_before es first in
      let (balance, dropped) = run_kept p es first o in
      let (counted, written) = close_counts last r in
      (
        omega (
          arith,
          dropped,
          counted,
          length-append (out ++ last.queue) last.batch,
          length-append out last.queue,
        ),
        omega (
          arith,
          balance,
          ap (count p) written,
          count-append p (out ++ last.queue) last.batch,
          count-append p out last.queue,
        ),
      )

  -- A new writer is closed after any interleaving of submissions, of takes from the queue and of batch
  -- writes, in which no connection fails after its commit, at a time when no commit is under way, and
  -- nothing is submitted while it closes. Then `dropped` is the number of the events that were lost:
  -- refused by a full queue, given up with their batch after the last attempt, or still queued or in a
  -- batch. And every event is in the table or among the lost ones, once for each time that it was
  -- submitted: for any test on events, as many pass it among those submitted as in the two together.
  pub every_event_accounted :
      (p : A → Bool) (max_queue batch_size write_retries : ℕ) (es : List (Event A))
      → IsOrderly es (Writer.init max_queue batch_size write_retries)
      → IsUncommitted (run es (Writer.init max_queue batch_size write_retries)).phase
      → ((close (run es (Writer.init max_queue batch_size write_retries))).dropped
          ≡ length (lost es (Writer.init max_queue batch_size write_retries)))
        × (count p (close (run es (Writer.init max_queue batch_size write_retries))).written
              + count p (lost es (Writer.init max_queue batch_size write_retries))
            ≡ count p (submitted es))
  every_event_accounted p max_queue batch_size write_retries es o u =
      let last = run es (Writer.init max_queue batch_size write_retries) in
      let (dropped, sum) =
        closed_ledger p max_queue batch_size write_retries es o (running last.phase u) in
      (dropped, omega (arith, sum, ap (count p) (pending_batch last.phase last.batch u)))
    where
      running : (h : Phase) → IsUncommitted h → IsRunning h
      running collecting x = tt
      running (writing i) x = tt
      running (committed i) x = absurd x
      running ended x = absurd x

      pending_batch : (h : Phase) (b : List A) → IsUncommitted h → pending h b ≡ b
      pending_batch collecting b x = refl
      pending_batch (writing i) b x = refl
      pending_batch (committed i) b x = absurd x
      pending_batch ended b x = absurd x

  -- When the same writer is closed while a batch has been committed and its connection is not yet
  -- released, that batch is counted as dropped although the table holds it: `dropped` is the number of
  -- the lost events, and the table and the lost events together have that batch once more than it was
  -- submitted.
  pub committed_batch_counted_twice :
      (p : A → Bool) (max_queue batch_size write_retries i : ℕ) (es : List (Event A))
      → IsOrderly es (Writer.init max_queue batch_size write_retries)
      → (run es (Writer.init max_queue batch_size write_retries)).phase ≡ committed i
      → ((close (run es (Writer.init max_queue batch_size write_retries))).dropped
          ≡ length (lost es (Writer.init max_queue batch_size write_retries)))
        × (count p (close (run es (Writer.init max_queue batch_size write_retries))).written
              + count p (lost es (Writer.init max_queue batch_size write_retries))
            ≡ count p (submitted es)
              + count p (run es (Writer.init max_queue batch_size write_retries)).batch)
  committed_batch_counted_twice p max_queue batch_size write_retries i es o c =
      let last = run es (Writer.init max_queue batch_size write_retries) in
      let (dropped, sum) =
        closed_ledger p max_queue batch_size write_retries es o (running last.phase c) in
      (dropped, omega (arith, sum, ap (count p) (nothing_pending last.phase last.batch c)))
    where
      running : (h : Phase) → h ≡ committed i → IsRunning h
      running collecting x = tt
      running (writing j) x = tt
      running (committed j) x = tt
      running ended x = cc

      nothing_pending : (h : Phase) (b : List A) → h ≡ committed i → pending h b ≡ []
      nothing_pending collecting b x = cc
      nothing_pending (writing j) b x = cc
      nothing_pending (committed j) b x = refl
      nothing_pending ended b x = cc
