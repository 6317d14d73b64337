-- ===== src/Tests/Audit.antt =====
-- framework/audit.py: a queue of one event that overflows, a batch that is given up and one that is
-- written.
use json_api_forge.Prelude.{ℕ, refl, Bool, List, [], length, nat_beq, ◌+◌, ◌≡◌, ◌∷◌}
use json_api_forge.Audit.Writer
use json_api_forge.Audit.Writer.{
  Event, close, run, submit, take_one, take_from, start_writing, fail, attempt_failed, commit,
  release, step, submits, takes, writes, fails, commits, releases,
}
use json_api_forge.Audit.Ledger.{lost, count}
use json_api_forge.Audit.Accounting.{every_event_accounted, committed_batch_counted_twice}

abbrev history : List (Event ℕ)
history =
    submits 1
    ∷ submits 2
    ∷ takes
    ∷ writes
    ∷ fails
    ∷ submits 3
    ∷ takes
    ∷ writes
    ∷ commits
    ∷ releases
    ∷ submits 4
    ∷ []

abbrev is_three : ℕ → Bool
is_three n = nat_beq n 3

every_event_accounted_example :
    ((close (run history (Writer.init 1 10 0))).dropped
      ≡ length (lost history (Writer.init 1 10 0)))
    × (count is_three (close (run history (Writer.init 1 10 0))).written
          + count is_three (lost history (Writer.init 1 10 0))
        ≡ 1)
unfolding Writer.init run step submit take_one take_from start_writing fail attempt_failed commit
    release
every_event_accounted_example = every_event_accounted is_three 1 10 0 history (tt, tt) tt

abbrev cut_short : List (Event ℕ)
cut_short = submits 3 ∷ takes ∷ writes ∷ commits ∷ []

committed_batch_counted_twice_example :
    ((close (run cut_short (Writer.init 1 10 0))).dropped
      ≡ length (lost cut_short (Writer.init 1 10 0)))
    × (count is_three (close (run cut_short (Writer.init 1 10 0))).written
          + count is_three (lost cut_short (Writer.init 1 10 0))
        ≡ 1 + 1)
unfolding Writer.init run step submit take_one take_from start_writing commit
committed_batch_counted_twice_example =
    committed_batch_counted_twice is_three 1 10 0 0 cut_short tt refl
