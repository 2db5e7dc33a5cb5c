-- ===== src/Execution/Shutdown.antt =====
-- The host's shutdown: `live_attempts` of session_handler.py and sigint_supervisor.py. An attempt is
-- named by its execution id; between the two phases the workers take steps of their own.
use Prim.Native.String.{◌++◌ as text_append}
use angelus.Prelude.{ℕ, true, ◌&&◌, not, List, String, map, keep, mem, if◌then◌else◌}
use angelus.Execution.Trace.{WriteOutcome}
use angelus.Execution.Types.{Controller, is_live}
use angelus.Execution.Attempt.{ExecutionAttempt, request_stop, mark_interrupted}

-- `SessionHandler.live_attempts`, over the latest attempts of the sessions.
abbrev pub live_attempts : {C D R : Type 0} → List (ExecutionAttempt C D R) → List String
live_attempts attempts = map (λ a. a.execution_id) (keep (λ a. is_live a.state) attempts)

module _ (k : Controller) {D R : Type 0} where
  open k use {C}

  -- `attempt.request_stop(force=True)` on the attempts that the ids name.
  abbrev pub force_stop : String → List String → ExecutionAttempt C D R → ExecutionAttempt C D R
  force_stop reason ids a = if mem a.execution_id ids then (request_stop k true reason a).0 else a

  unfoldable pub request_force_stop_all :
      String → List (ExecutionAttempt C D R) → List (ExecutionAttempt C D R) × List String
  request_force_stop_all reason attempts =
      let ids = live_attempts attempts in (map (force_stop reason ids) attempts, ids)

  -- One turn of `wait_for_stop_all`, when the wait is over: `done` says whether it was in time.
  -- `flushed` is what the flush of that attempt's buffer does.
  abbrev pub settle :
      ℕ
      → String
      → List String
      → (String → WriteOutcome × String)
      → ExecutionAttempt C D R
      → ExecutionAttempt C D R
  settle now reason ids flushed a =
      if mem a.execution_id ids && not a.done
      then mark_interrupted k now (text_append reason "_shutdown_deadline")
          (flushed a.execution_id).0 (flushed a.execution_id).1 a
      else a

  unfoldable pub wait_for_stop_all :
      ℕ
      → String
      → List String
      → (String → WriteOutcome × String)
      → List (ExecutionAttempt C D R)
      → List (ExecutionAttempt C D R)
  wait_for_stop_all now reason ids flushed attempts = map (settle now reason ids flushed) attempts
