-- ===== src/Execution/Hosts.antt =====
-- A Session's executor among everything that runs under it: the calls of the API threads, the steps
-- of the current attempt, and those of attempts that it has let go of, whose workers may still be
-- at work (session_executor.py).
use angelus.Prelude.{
  ℕ, ◌≡◌, Bool, true, Option, none, some, List, ◌∷◌, ◌++◌, String, Result, ok, err,
}
use angelus.Execution.Types.{Controller, is_idle}
use angelus.Execution.Attempt.{ExecutionAttempt}
use angelus.Execution.Steps.{Step}
use angelus.Execution.Executor.{SessionExecutor, ExecutorError, hooked, start, request_stop}

-- The executor, and the attempts before its latest one.
pub record Host (C D R : Type 0) : Type 0 where
  pub executor : SessionExecutor C D R
  pub retired : List (ExecutionAttempt C D R)

-- Every attempt so far, the latest one first.
abbrev pub with_latest :
    {C D R : Type 0}
    → Option (ExecutionAttempt C D R)
    → List (ExecutionAttempt C D R)
    → List (ExecutionAttempt C D R)
with_latest none old = old
with_latest (some a) old = a ∷ old

-- What a call of `start` leaves: the attempt before is let go of, unless the call raises.
abbrev pub after_start :
    {C D R : Type 0}
    → Host C D R
    → SessionExecutor C D R × Result ExecutorError (ExecutionAttempt C D R)
    → Host C D R
after_start h (e, ok a) = record {
  executor = e;
  retired = with_latest h.executor.attempt h.retired;
}
after_start h (e, err _) = record h { executor = e }

module _ (k : Controller) {D R : Type 0} where
  open k use {C}

  -- A hook that leaves an idle attempt idle.
  abbrev pub IsQuiet : Option (ExecutionAttempt C D R → ExecutionAttempt C D R) → Type 0
  IsQuiet before_start =
      (a : ExecutionAttempt C D R)
      → is_idle a.state ≡ true
      → is_idle (hooked before_start a).state ≡ true

  pub data HostStep (h : Host C D R) : Host C D R → Type 0 where
    begins :
        (before_start : Option (ExecutionAttempt C D R → ExecutionAttempt C D R))
        (execution_id : String) (now : ℕ)
        → IsQuiet before_start
        → HostStep h (after_start h (start k before_start execution_id now h.executor))
    asks :
        (forced : Bool) (reason : String)
        → HostStep h (record h { executor = (request_stop k forced reason h.executor).0 })
    works :
        {a b : ExecutionAttempt C D R}
        → h.executor.attempt ≡ some a
        → Step k a b
        → HostStep h (record h { executor = record h.executor { attempt = some b } })
    lingers :
        (newer older : List (ExecutionAttempt C D R)) {a b : ExecutionAttempt C D R}
        → h.retired ≡ newer ++ a ∷ older
        → Step k a b
        → HostStep h (record h { retired = newer ++ b ∷ older })

  pub data HostReach (h : Host C D R) : Host C D R → Type 0 where
    here : HostReach h h
    next : {i j : Host C D R} → HostReach h i → HostStep i j → HostReach h j

  abbrev pub attempts : Host C D R → List (ExecutionAttempt C D R)
  attempts h = with_latest h.executor.attempt h.retired
