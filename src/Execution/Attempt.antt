-- ===== src/Execution/Attempt.antt =====
-- execution_attempt.py: each function is what one method does under the attempt's lock. `_run` is its
-- four parts, in the order in which the worker thread takes them: one of two outcomes, the rest that
-- runs under the lock, and the release of waiters. Where a method flushes the trace buffer, the
-- outcomes are those up to an `OSError`; an error of another kind would leave the method at once. `publish_ephemeral` is one step, though the append
-- to the trace buffer comes right behind the lock.
use Prim.Native.String.{◌++◌ as text_append}
use angelus.Prelude.{
  ℕ, ◌+◌, ◌-◌, Bool, true, false, not, Option, none, some, List, [], ◌∷◌, ◌++◌, ◌&&◌, String,
  if◌then◌else◌, ltb, length, drop, keep, is_none,
}
use angelus.Execution.Trace.{
  WriteOutcome, FlushOutcome, written, Raised, has_raised, TraceBuffer, open_buffer, flush, close,
  append,
}
use angelus.Execution.Types.{
  ExecutionState, idle, queued, stopping, force_stopping, completed, stopped, interrupted, failed,
  ExecutionSnapshot, StopMode, graceful, force, StopRequest, Controller, is_live, is_terminal,
  is_idle, is_interrupted, Fact, execution_started, execution_state_changed, stop_requested,
  checkpoint_committed, execution_interrupted, execution_completed, execution_stopped,
  execution_failed, Manifest, checkpoint_of, is_force,
}

-- Where the worker thread stands: not started, in the operation, behind the outcome that it has
-- published, behind its last write of the manifest, or at its end.
pub data Worker : Type 0 where
  unstarted working published closed finished : Worker

-- A live transport event with its `ephemeral_sequence`.
pub record Ephemeral (D : Type 0) : Type 0 where
  pub sequence : ℕ
  pub event : D

pub record ExecutionAttempt (C D R : Type 0) : Type 0 where
  pub session_id : String
  pub attempt : ℕ
  pub execution_id : String
  pub controller : C
  pub state : ExecutionState
  pub started_at : Option ℕ
  pub finished_at : Option ℕ
  pub error : Option String
  pub result : Option R
  pub done : Bool
  pub ephemeral_events : List (Ephemeral D)
  pub ephemeral_sequence : ℕ
  pub stream : TraceBuffer D
  pub journal : List Fact
  pub manifest : Option Manifest
  pub worker : Worker

abbrev pub mode_of : Bool → StopMode
mode_of true = force
mode_of false = graceful

abbrev pub with_checkpoint : String → Option Manifest → Manifest
with_checkpoint generation none = record {
  state = none;
  started_at = none;
  finished_at = none;
  error = none;
  stop_request = none;
  checkpoint = some generation;
}
with_checkpoint generation (some m) = record m { checkpoint = some generation }

abbrev pub interruption : String → String → Bool → String
interruption reason exc raised =
    if raised then text_append reason (text_append "; TraceFlushError: " exc) else reason

-- The list is cut to its last 2048 events when it exceeds 4096.
abbrev pub trimmed : {D : Type 0} → List (Ephemeral D) → List (Ephemeral D)
trimmed events = if ltb 4096 (length events) then drop (length events - 2048) events else events

module _ (k : Controller) {D R : Type 0} where
  open k use {C, should_stop}

  -- `__init__`, with the identity that `uuid4` gave.
  unfoldable pub new_attempt : String → ℕ → String → ExecutionAttempt C D R
  unfolding open_buffer
  new_attempt session_id attempt execution_id = record {
    session_id = session_id;
    attempt = attempt;
    execution_id = execution_id;
    controller = k.fresh;
    state = idle;
    started_at = none;
    finished_at = none;
    error = none;
    result = none;
    done = false;
    ephemeral_events = [];
    ephemeral_sequence = 0;
    stream = open_buffer 64;
    journal = [];
    manifest = none;
    worker = Worker.unstarted;
  }

  -- `_write_manifest`: a checkpoint that stands in the old manifest is kept.
  abbrev pub write_manifest : ExecutionAttempt C D R → ExecutionAttempt C D R
  write_manifest a = record a {
    manifest = some (record {
      state = some a.state;
      started_at = a.started_at;
      finished_at = a.finished_at;
      error = a.error;
      stop_request = k.stop_request a.controller;
      checkpoint = checkpoint_of a.manifest;
    });
  }

  unfoldable pub snapshot : ExecutionAttempt C D R → ExecutionSnapshot
  snapshot a = record {
    session_id = a.session_id;
    execution_id = some a.execution_id;
    attempt = a.attempt;
    state = a.state;
    started_at = a.started_at;
    finished_at = a.finished_at;
    error = a.error;
  }

  abbrev pub launched : ℕ → ExecutionAttempt C D R → ExecutionAttempt C D R
  launched now a = write_manifest (record a {
    state = queued;
    started_at = some now;
    journal = a.journal ++ execution_started ∷ [];
    worker = Worker.working;
  })

  -- `none` where the attempt is not idle and `start` raises.
  unfoldable pub start : ℕ → ExecutionAttempt C D R → Option (ExecutionAttempt C D R)
  start now a = if not (is_idle a.state) then none else some (launched now a)

  unfoldable pub transition : ExecutionState → ExecutionAttempt C D R → ExecutionAttempt C D R
  transition state a =
      if is_terminal a.state
      then a
      else record a { state = state; journal = a.journal ++ execution_state_changed state ∷ [] }

  abbrev pub accept_stop : C × StopRequest → ExecutionAttempt C D R → ExecutionAttempt C D R
  accept_stop (controller, request) a = write_manifest (record a {
    controller = controller;
    state = if is_force request.mode then force_stopping else stopping;
    journal = a.journal ++ stop_requested request ∷ [];
  })

  unfoldable pub request_stop :
      Bool → String → ExecutionAttempt C D R → ExecutionAttempt C D R × ExecutionSnapshot
  unfolding snapshot
  request_stop forced reason a =
      if not (is_live a.state)
      then (a, snapshot a)
      else (let b = accept_stop (k.request_stop a.controller (mode_of forced) reason) a in
          (b, snapshot b))

  -- `commit_checkpoint` and `CheckpointStore.commit`, once the payload files are written.
  unfoldable pub commit_checkpoint : String → ExecutionAttempt C D R → ExecutionAttempt C D R
  commit_checkpoint generation a = record a {
    journal = a.journal ++ checkpoint_committed generation ∷ [];
    manifest = some (with_checkpoint generation a.manifest);
  }

  -- `exc` is the text of the error, should the flush raise one.
  unfoldable pub mark_interrupted :
      ℕ → String → WriteOutcome → String → ExecutionAttempt C D R → ExecutionAttempt C D R
  mark_interrupted now reason w exc a =
      if a.done
      then a
      else write_manifest (record a {
        state = interrupted;
        error = some (interruption reason exc (has_raised (flush (written w) a.stream).1));
        finished_at = some now;
        stream = (flush (written w) a.stream).0;
        journal = a.journal ++ execution_interrupted reason ∷ [];
      })

  -- The `except` branch of `_run`.
  unfoldable pub run_failed : String → ExecutionAttempt C D R → ExecutionAttempt C D R
  run_failed text a =
      if is_interrupted a.state then record a { worker = Worker.published } else record a {
        error = some text;
        state = if should_stop a.controller then stopped else failed;
        journal =
            a.journal
            ++ (if should_stop a.controller
                then execution_stopped (some text)
                else execution_failed (some text))
              ∷ [];
        worker = Worker.published;
      }

  -- The `else` branch of `_run`.
  unfoldable pub run_returned : R → ExecutionAttempt C D R → ExecutionAttempt C D R
  run_returned result a =
      if is_interrupted a.state
      then record a { result = some result; worker = Worker.published }
      else record a {
        result = some result;
        state = if should_stop a.controller then stopped else completed;
        journal =
            a.journal
            ++ (if should_stop a.controller then execution_stopped none else execution_completed)
              ∷ [];
        worker = Worker.published;
      }

  -- The `finally` branch of `_run`, as far as it runs under the lock.
  unfoldable pub run_finally :
      ℕ → WriteOutcome → String → ExecutionAttempt C D R → ExecutionAttempt C D R
  run_finally now w exc a = write_manifest (record a {
    stream = (close (written w) a.stream).0;
    error =
        if has_raised (close (written w) a.stream).1 && is_none a.error
        then some (text_append "TraceFlushError: " exc)
        else a.error;
    finished_at = some now;
    worker = Worker.closed;
  })

  -- `self._done.set()`: waiters are released, behind the lock.
  unfoldable pub release : ExecutionAttempt C D R → ExecutionAttempt C D R
  release a = record a { done = true; worker = Worker.finished }

  unfoldable pub publish_ephemeral :
      FlushOutcome → D → ExecutionAttempt C D R → ExecutionAttempt C D R × Raised
  publish_ephemeral w event a =
      let buffered = append w event a.stream in
      (
        record a {
          ephemeral_sequence = a.ephemeral_sequence + 1;
          ephemeral_events = trimmed (
              a.ephemeral_events
              ++ record { sequence = a.ephemeral_sequence + 1; event = event } ∷ []);
          stream = buffered.0;
        },
        buffered.1,
      )

  unfoldable pub ephemeral_events : ℕ → ExecutionAttempt C D R → List (Ephemeral D)
  ephemeral_events after a = keep (λ e. ltb after e.sequence) a.ephemeral_events
