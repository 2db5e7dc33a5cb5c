-- ===== src/Execution/Executor.antt =====
-- session_executor.py: the owner of a Session's attempts. `start` takes what `uuid4` and the clock
-- give, and the `before_start` hook as what it does to the attempt.
use angelus.Prelude.{
  ℕ, ◌+◌, Bool, false, Option, none, some, String, Result, ok, err, is_blank, if◌then◌else◌,
}
use angelus.Execution.Types.{idle, ExecutionSnapshot, Controller, is_live}
use angelus.Execution.Attempt.{ExecutionAttempt, new_attempt}
use angelus.Execution.Attempt

pub record SessionExecutor (C D R : Type 0) : Type 0 where
  pub session_id : String
  pub attempt_number : ℕ
  pub attempt : Option (ExecutionAttempt C D R)

pub data ExecutorError : Type 0 where
  value_error runtime_error : ExecutorError

abbrev pub has_live : {C D R : Type 0} → Option (ExecutionAttempt C D R) → Bool
has_live none = false
has_live (some a) = is_live a.state

abbrev pub hooked :
    {C D R : Type 0}
    → Option (ExecutionAttempt C D R → ExecutionAttempt C D R)
    → ExecutionAttempt C D R
    → ExecutionAttempt C D R
hooked none a = a
hooked (some before_start) a = before_start a

module _ (k : Controller) {D R : Type 0} where
  open k use {C}

  -- `__init__`, with the identity as `strip` leaves it.
  unfoldable pub new_executor : String → Result ExecutorError (SessionExecutor C D R)
  new_executor normalized =
      if is_blank normalized
      then err ExecutorError.value_error
      else ok (record { session_id = normalized; attempt_number = 0; attempt = none })

  -- The attempt is kept, even when its own `start` raises.
  abbrev pub started :
      SessionExecutor C D R
      → ExecutionAttempt C D R
      → Option (ExecutionAttempt C D R)
      → SessionExecutor C D R × Result ExecutorError (ExecutionAttempt C D R)
  started e a none = (record e { attempt = some a }, err ExecutorError.runtime_error)
  started e a (some b) = (record e { attempt = some b }, ok b)

  unfoldable pub start :
      Option (ExecutionAttempt C D R → ExecutionAttempt C D R)
      → String
      → ℕ
      → SessionExecutor C D R
      → SessionExecutor C D R × Result ExecutorError (ExecutionAttempt C D R)
  start before_start execution_id now e =
      if has_live e.attempt
      then (e, err ExecutorError.runtime_error)
      else (let number = e.attempt_number + 1 in
          let a = hooked before_start (new_attempt k e.session_id number execution_id) in
          started (record e { attempt_number = number }) a (Attempt.start k now a))

  abbrev pub taken : SessionExecutor C D R → Option (ExecutionAttempt C D R) → ExecutionSnapshot
  taken e (some a) = Attempt.snapshot k a
  taken e none = record {
    session_id = e.session_id;
    execution_id = none;
    attempt = e.attempt_number;
    state = idle;
    started_at = none;
    finished_at = none;
    error = none;
  }

  unfoldable pub snapshot : SessionExecutor C D R → ExecutionSnapshot
  snapshot e = taken e e.attempt

  abbrev pub asked :
      Bool
      → String
      → SessionExecutor C D R
      → Option (ExecutionAttempt C D R)
      → SessionExecutor C D R × ExecutionSnapshot
  asked forced reason e none = (e, snapshot e)
  asked forced reason e (some a) = (
    record e { attempt = some (Attempt.request_stop k forced reason a).0 },
    (Attempt.request_stop k forced reason a).1,
  )

  unfoldable pub request_stop :
      Bool → String → SessionExecutor C D R → SessionExecutor C D R × ExecutionSnapshot
  request_stop forced reason e = asked forced reason e e.attempt
