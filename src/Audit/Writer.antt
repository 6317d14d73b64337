-- ===== src/Audit/Writer.antt =====
-- framework/audit.py: AuditWriter. Its task and the callers of `submit` interleave at awaits only, so
-- each stretch of code between two awaits is one step, and an event says which one comes next. The
-- database decides which attempts commit and which raise. `written` is what the table holds. Metrics,
-- logs and the pauses between attempts are left out.
use json_api_forge.Prelude.{
  ℕ, max, Bool, true, false, List, [], ltb, leb, length, ◌+◌, ◌&&◌, ◌∷◌, ◌++◌, if◌then◌else◌,
}

-- Where the task is: it collects a batch; it awaits attempt `i` to write the batch, or the pause before
-- it; that attempt has committed and awaits the release of its connection; or it has ended.
pub data Phase : Type 0 where
  collecting : Phase
  writing : ℕ → Phase
  committed : ℕ → Phase
  ended : Phase

pub record AuditWriter (A : Type 0) : Type 0 where
  pub max_queue : ℕ
  pub batch_size : ℕ
  pub write_retries : ℕ
  pub queue : List A
  pub batch : List A
  pub phase : Phase
  pub dropped : ℕ
  pub write_failures : ℕ
  pub written : List A

-- A call of `submit`; what the task awaited: an event of the queue, the end of the collection, an attempt
-- that raises, a commit, the release of the connection; and in `close` the end of the wait for the queue
-- and the cancellation of the task.
pub data Event (A : Type 0) : Type 0 where
  submits : A → Event A
  takes writes fails commits releases ends_wait cancels : Event A

module _ {A : Type 0} where
  unfoldable pub init : ℕ → ℕ → ℕ → AuditWriter A
  init max_queue batch_size write_retries = record {
    max_queue = max_queue;
    batch_size = max 1 batch_size;
    write_retries = write_retries;
    queue = [];
    batch = [];
    phase = collecting;
    dropped = 0;
    write_failures = 0;
    written = [];
  }

  -- asyncio.Queue.full: a queue with maxsize 0 is never full
  abbrev pub is_full : AuditWriter A → Bool
  is_full w = ltb 0 w.max_queue && leb w.max_queue (length w.queue)

  unfoldable pub submit : A → AuditWriter A → AuditWriter A
  submit value w =
      if is_full w
      then record w { dropped = w.dropped + 1 }
      else record w { queue = w.queue ++ value ∷ [] }

  -- `queue.get()` in `_run`: the first of a batch, or a further one while there is room.
  unfoldable pub take_from : List A → AuditWriter A → AuditWriter A
  take_from [] w = w
  take_from (first ∷ rest) w =
      if ltb (length w.batch) w.batch_size
      then record w { queue = rest; batch = w.batch ++ first ∷ [] }
      else w

  unfoldable pub take_one : Phase → AuditWriter A → AuditWriter A
  unfolding take_from
  take_one collecting w = take_from w.queue w
  take_one (writing i) w = w
  take_one (committed i) w = w
  take_one ended w = w

  -- `_write_batch_with_retry(batch)` is called with a batch that holds one event at least.
  unfoldable pub start_writing : Phase → List A → AuditWriter A → AuditWriter A
  start_writing collecting [] w = w
  start_writing collecting (first ∷ rest) w = record w { phase = writing 0 }
  start_writing (writing i) batch w = w
  start_writing (committed i) batch w = w
  start_writing ended batch w = w

  -- except Exception: the next attempt, or after the last one the end of the round with the batch lost
  unfoldable pub attempt_failed : ℕ → AuditWriter A → AuditWriter A
  attempt_failed i w =
      let failed = record w { write_failures = w.write_failures + 1 } in
      if leb w.write_retries i
      then record failed { dropped = w.dropped + length w.batch; batch = []; phase = collecting }
      else record failed { phase = writing (i + 1) }

  -- The transaction, or after its commit the release of the connection, raises.
  unfoldable pub fail : Phase → AuditWriter A → AuditWriter A
  unfolding attempt_failed
  fail collecting w = w
  fail (writing i) w = attempt_failed i w
  fail (committed i) w = attempt_failed i w
  fail ended w = w

  unfoldable pub commit : Phase → AuditWriter A → AuditWriter A
  commit collecting w = w
  commit (writing i) w = record w { written = w.written ++ w.batch; phase = committed i }
  commit (committed i) w = w
  commit ended w = w

  -- `return True`, and the next round starts with an empty batch.
  unfoldable pub release : Phase → AuditWriter A → AuditWriter A
  release collecting w = w
  release (writing i) w = w
  release (committed i) w = record w { batch = []; phase = collecting }
  release ended w = w

  abbrev pub is_empty : List A → Bool
  is_empty [] = true
  is_empty (x ∷ xs) = false

  -- `close` until it cancels the task: `queue.join()` has returned if no event is queued or in a batch;
  -- else the time was over, and what is queued counts as dropped.
  unfoldable pub end_wait : AuditWriter A → AuditWriter A
  end_wait w =
      if is_empty w.queue && is_empty w.batch
      then w
      else record w { dropped = w.dropped + length w.queue }

  -- asyncio.CancelledError in `_run`
  unfoldable pub cancel : Phase → AuditWriter A → AuditWriter A
  cancel collecting w = record w { dropped = w.dropped + length w.batch; batch = []; phase = ended }
  cancel (writing i) w = record w {
    dropped = w.dropped + length w.batch;
    batch = [];
    phase = ended;
  }
  cancel (committed i) w = record w {
    dropped = w.dropped + length w.batch;
    batch = [];
    phase = ended;
  }
  cancel ended w = w

  unfoldable pub step : Event A → AuditWriter A → AuditWriter A
  unfolding submit take_one start_writing fail commit release end_wait cancel
  step (submits value) w = submit value w
  step takes w = take_one w.phase w
  step writes w = start_writing w.phase w.batch w
  step fails w = fail w.phase w
  step commits w = commit w.phase w
  step releases w = release w.phase w
  step ends_wait w = end_wait w
  step cancels w = cancel w.phase w

  unfoldable pub run : List (Event A) → AuditWriter A → AuditWriter A
  unfolding step
  run [] w = w
  run (e ∷ es) w = run es (step e w)

  -- await self.queue.join() up to the timeout, then self._task.cancel(), with no step between them
  unfoldable pub close : AuditWriter A → AuditWriter A
  unfolding end_wait cancel
  close w = cancel w.phase (end_wait w)
