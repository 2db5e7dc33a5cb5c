-- ===== src/Execution/Outcomes.antt =====
-- What the worker's parts preserve, and with them every step of an attempt (execution_attempt.py).
use angelus.Prelude.{
  ℕ, ◌≤◌, ◌≡◌, refl, ◌≢◌, Bool, true, false, Option, some, [], ◌∷◌, ◌++◌, String, arith,
  if◌then◌else◌,
}
use angelus.Execution.Trace.{WriteOutcome, FlushOutcome}
use angelus.Execution.Types.{
  ExecutionState, running, completed, stopped, failed, Controller, is_terminal, is_interrupted,
  Fact,
}
use angelus.Execution.Attempt.{
  Worker, ExecutionAttempt, new_attempt, run_failed, run_returned, run_finally, release,
  publish_ephemeral,
}
use angelus.Execution.Steps.{outcomes, outcomes-append, Step, Reach, IsSound}
use angelus.Execution.Lifecycle.{
  either-IsSound, start-IsSound, transition-IsSound, request_stop-IsSound,
  commit_checkpoint-IsSound, mark_interrupted-IsSound,
}

outcomes_at_most_one : (g : Fact) → outcomes (g ∷ []) ≤ 1
outcomes_at_most_one g = ground arith

interrupted_final : (s : ExecutionState) → is_interrupted s ≡ true → is_terminal s ≡ true
interrupted_final s e = ground arith

terminal_either :
    (t : Bool) (s : ExecutionState)
    → is_terminal s ≡ true
    → is_terminal (if t then stopped else s) ≡ true
terminal_either true s e = refl
terminal_either false s e = e

running_not_final : (s : ExecutionState) → is_terminal s ≡ true → some s ≢ some running
running_not_final s e p = ground arith

module _ (k : Controller) {D R : Type 0} where
  open k use {C, should_stop}

  -- The worker's outcome: the first one journaled, and a terminal state.
  outcome-IsSound :
      (a : ExecutionAttempt C D R) (s : ExecutionState) (f : Fact) (error : Option String)
      (r : Option R)
      → IsSound a
      → a.worker ≡ Worker.working
      → is_terminal s ≡ true
      → IsSound (record a {
        error = error;
        result = r;
        state = s;
        journal = a.journal ++ f ∷ [];
        worker = Worker.published;
      })
  outcome-IsSound a s f error r v working final = record {
    released = λ d. cc (v.released d, working);
    terminal = λ p. final;
    once =
        omega
          (arith, v.none_yet (ground arith), outcomes-append a.journal f, outcomes_at_most_one f);
    none_yet = λ p. cc;
    never_running = v.never_running;
    agrees = λ d. cc;
  }

  -- A worker that finds the attempt interrupted only leaves.
  leaving-IsSound :
      (a : ExecutionAttempt C D R) (r : Option R)
      → IsSound a
      → a.worker ≡ Worker.working
      → is_interrupted a.state ≡ true
      → IsSound (record a { result = r; worker = Worker.published })
  leaving-IsSound a r v working e = record {
    released = λ d. cc (v.released d, working);
    terminal = λ p. interrupted_final a.state e;
    once = v.once;
    none_yet = λ p. cc;
    never_running = v.never_running;
    agrees = λ d. cc;
  }

  run_failed-IsSound :
      (text : String) (a : ExecutionAttempt C D R)
      → IsSound a
      → a.worker ≡ Worker.working
      → IsSound (run_failed k text a)
  unfolding run_failed
  run_failed-IsSound text a v working =
      either-IsSound k (is_interrupted a.state) _ _ (leaving-IsSound a a.result v working) λ e.
        outcome-IsSound a _ _ _ _ v working (terminal_either (should_stop a.controller) failed refl)

  run_returned-IsSound :
      (r : R) (a : ExecutionAttempt C D R)
      → IsSound a
      → a.worker ≡ Worker.working
      → IsSound (run_returned k r a)
  unfolding run_returned
  run_returned-IsSound r a v working =
      either-IsSound k (is_interrupted a.state) _ _ (leaving-IsSound a (some r) v working) λ e.
        outcome-IsSound a _ _ _ _ v working
          (terminal_either (should_stop a.controller) completed refl)

  run_finally-IsSound :
      (now : ℕ) (w : WriteOutcome) (exc : String) (a : ExecutionAttempt C D R)
      → IsSound a
      → a.worker ≡ Worker.published
      → IsSound (run_finally k now w exc a)
  unfolding run_finally
  run_finally-IsSound now w exc a v behind = record {
    released = λ d. cc (v.released d, behind);
    terminal = λ p. v.terminal (ground arith);
    once = v.once;
    none_yet = λ p. cc;
    never_running = running_not_final a.state (v.terminal (ground arith));
    agrees = λ d. refl;
  }

  release-IsSound :
      (a : ExecutionAttempt C D R) → IsSound a → a.worker ≡ Worker.closed → IsSound (release k a)
  unfolding release
  release-IsSound a v closed = record {
    released = λ d. refl;
    terminal = λ p. v.terminal (ground arith);
    once = v.once;
    none_yet = λ p. cc;
    never_running = v.never_running;
    agrees = λ d. v.agrees (ground arith);
  }

  publish_ephemeral-IsSound :
      (w : FlushOutcome) (event : D) (a : ExecutionAttempt C D R)
      → IsSound a
      → IsSound (publish_ephemeral k w event a).0
  unfolding publish_ephemeral
  publish_ephemeral-IsSound w event a v = record {
    released = v.released;
    terminal = v.terminal;
    once = v.once;
    none_yet = v.none_yet;
    never_running = v.never_running;
    agrees = v.agrees;
  }

  pub Step-IsSound : {a b : ExecutionAttempt C D R} → IsSound a → Step k a b → IsSound b
  Step-IsSound {a} v (Step.starts now e) = start-IsSound k now a v e
  Step-IsSound {a} v (Step.transitions s live begun) = transition-IsSound k s a v
  Step-IsSound {a} v (Step.stops forced reason) = request_stop-IsSound k forced reason a v
  Step-IsSound {a} v (Step.commits generation) = commit_checkpoint-IsSound k generation a v
  Step-IsSound {a} v (Step.interrupts now reason w exc) =
      mark_interrupted-IsSound k now reason w exc a v
  Step-IsSound {a} v (Step.fails text working) = run_failed-IsSound text a v working
  Step-IsSound {a} v (Step.returns r working) = run_returned-IsSound r a v working
  Step-IsSound {a} v (Step.finishes now w exc behind) = run_finally-IsSound now w exc a v behind
  Step-IsSound {a} v (Step.releases closed) = release-IsSound a v closed
  Step-IsSound {a} v (Step.publishes w event) = publish_ephemeral-IsSound w event a v

  new_attempt-IsSound :
      (session_id : String) (n : ℕ) (execution_id : String)
      → IsSound (new_attempt k {D = D} {R = R} session_id n execution_id)
  unfolding new_attempt
  new_attempt-IsSound session_id n execution_id = record {
    released = λ d. cc;
    terminal = λ p. cc;
    once = omega arith;
    none_yet = λ p. refl;
    never_running = λ r. cc;
    agrees = λ d. cc;
  }

  -- However the steps of an attempt interleave: waiters are released only behind the worker's
  -- last write, a published attempt is in a terminal state, the worker journals one outcome at
  -- most and none before it publishes, the manifest never says `running`, and from the worker's
  -- last write on the manifest says its state.
  pub Reach-IsSound :
      (session_id : String) (n : ℕ) (execution_id : String) {a : ExecutionAttempt C D R}
      → Reach k (new_attempt k {D = D} {R = R} session_id n execution_id) a
      → IsSound a
  Reach-IsSound session_id n execution_id Reach.here = new_attempt-IsSound session_id n execution_id
  Reach-IsSound session_id n execution_id (Reach.next path s) =
      Step-IsSound (Reach-IsSound session_id n execution_id path) s
