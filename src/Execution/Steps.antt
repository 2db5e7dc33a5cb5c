-- ===== src/Execution/Steps.antt =====
-- The steps that the host, the API threads and the worker take on one attempt
-- (execution_attempt.py), in any order that the lock allows, and what should hold between them.
use angelus.Prelude.{
  ℕ, ◌+◌, ◌≤◌, ◌≡◌, ◌≢◌, Bool, true, false, Option, none, some, List, [], ◌∷◌, ◌++◌, String, arith,
  if◌then◌else◌,
}
use angelus.Execution.Trace.{WriteOutcome, FlushOutcome}
use angelus.Execution.Types.{
  ExecutionState, running, Controller, is_live, is_terminal, Fact, execution_completed,
  execution_stopped, execution_failed, Manifest,
}
use angelus.Execution.Attempt.{
  Worker, ExecutionAttempt, start, transition, request_stop, commit_checkpoint, mark_interrupted,
  run_failed, run_returned, run_finally, release, publish_ephemeral,
}

-- The outcomes that the worker journals.
abbrev pub is_outcome : Fact → Bool
is_outcome execution_completed = true
is_outcome (execution_stopped _) = true
is_outcome (execution_failed _) = true
is_outcome _ = false

abbrev pub outcomes : List Fact → ℕ
outcomes [] = 0
outcomes (f ∷ fs) = (if is_outcome f then 1 else 0) + outcomes fs

pub outcomes-append :
    (fs : List Fact) (f : Fact) → outcomes (fs ++ f ∷ []) ≡ outcomes fs + outcomes (f ∷ [])
outcomes-append [] f = omega arith
outcomes-append (g ∷ fs) f = omega (arith, outcomes-append fs f)

-- The worker has published its outcome.
abbrev pub has_published : Worker → Bool
has_published Worker.published = true
has_published Worker.closed = true
has_published Worker.finished = true
has_published _ = false

-- The worker has written the manifest for the last time.
abbrev pub has_closed : Worker → Bool
has_closed Worker.closed = true
has_closed Worker.finished = true
has_closed _ = false

abbrev pub manifest_state : Option Manifest → Option ExecutionState
manifest_state none = none
manifest_state (some m) = m.state

module _ {C D R : Type 0} where
  -- Waiters are released only behind the worker's last write; a published outcome is a terminal
  -- state; the worker journals one outcome at most, and none before it publishes; the manifest
  -- never says `running`, and from the worker's last write on it says the attempt's own state.
  pub record IsSound (a : ExecutionAttempt C D R) : Type 0 where
    pub released : a.done ≡ true → a.worker ≡ Worker.finished
    pub terminal : has_published a.worker ≡ true → is_terminal a.state ≡ true
    pub once : outcomes a.journal ≤ 1
    pub none_yet : has_published a.worker ≡ false → outcomes a.journal ≡ 0
    pub never_running : manifest_state a.manifest ≢ some running
    pub agrees : has_closed a.worker ≡ true → manifest_state a.manifest ≡ some a.state

module _ (k : Controller) {D R : Type 0} where
  open k use {C}

  -- One step. A call that raises is no step; `transition` is called with the states in which work
  -- is under way, as its description asks.
  pub data Step (a : ExecutionAttempt C D R) : ExecutionAttempt C D R → Type 0 where
    starts : {b : ExecutionAttempt C D R} (now : ℕ) → start k now a ≡ some b → Step a b
    transitions :
        (s : ExecutionState)
        → is_live s ≡ true
        → a.worker ≢ Worker.unstarted
        → Step a (transition k s a)
    stops : (forced : Bool) (reason : String) → Step a (request_stop k forced reason a).0
    commits : (generation : String) → Step a (commit_checkpoint k generation a)
    interrupts :
        (now : ℕ) (reason : String) (w : WriteOutcome) (exc : String)
        → Step a (mark_interrupted k now reason w exc a)
    fails : (text : String) → a.worker ≡ Worker.working → Step a (run_failed k text a)
    returns : (r : R) → a.worker ≡ Worker.working → Step a (run_returned k r a)
    finishes :
        (now : ℕ) (w : WriteOutcome) (exc : String)
        → a.worker ≡ Worker.published
        → Step a (run_finally k now w exc a)
    releases : a.worker ≡ Worker.closed → Step a (release k a)
    publishes : (w : FlushOutcome) (event : D) → Step a (publish_ephemeral k w event a).0

  pub data Reach (a : ExecutionAttempt C D R) : ExecutionAttempt C D R → Type 0 where
    here : Reach a a
    next : {b c : ExecutionAttempt C D R} → Reach a b → Step b c → Reach a c
