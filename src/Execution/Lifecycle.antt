-- ===== src/Execution/Lifecycle.antt =====
-- What each method of an attempt that runs outside the worker preserves (execution_attempt.py).
use angelus.Prelude.{
  ℕ, ◌≡◌, refl, sym, ◌∙◌, subst, Bool, true, false, not, Option, none, some, String, arith,
  if◌then◌else◌,
}
use angelus.Execution.Trace.{WriteOutcome}
use angelus.Execution.Types.{
  ExecutionState, ExecutionSnapshot, StopRequest, Controller, is_live, is_terminal, is_idle,
  execution_started, execution_state_changed, stop_requested, checkpoint_committed,
  execution_interrupted, Manifest,
}
use angelus.Execution.Attempt.{
  ExecutionAttempt, launched, start, transition, accept_stop, mode_of, request_stop,
  with_checkpoint, commit_checkpoint, mark_interrupted,
}
use angelus.Execution.Steps.{outcomes-append, has_published, has_closed, manifest_state, IsSound}

idle_not_terminal : (s : ExecutionState) → is_idle s ≡ true → is_terminal s ≡ false
idle_not_terminal s e = ground arith

not_live : (s : ExecutionState) → is_terminal s ≡ true → is_live s ≡ false
not_live s e = ground arith

module _ (k : Controller) {D R : Type 0} where
  open k use {C}

  -- Work that is released or published has left the idle state.
  idle_unpublished :
      (a : ExecutionAttempt C D R)
      → IsSound a
      → is_idle a.state ≡ true
      → (has_published a.worker ≡ false) × (a.done ≡ false)
  idle_unpublished a v e =
      (ground (arith, idle_not_terminal a.state e), ground (arith, idle_not_terminal a.state e))

  pub either-IsSound :
      (t : Bool) (x y : ExecutionAttempt C D R)
      → (t ≡ true → IsSound x)
      → (t ≡ false → IsSound y)
      → IsSound (if t then x else y)
  either-IsSound true x y hx hy = hx refl
  either-IsSound false x y hx hy = hy refl

  launch-IsSound :
      (t : Bool) (x : ExecutionAttempt C D R) {b : ExecutionAttempt C D R}
      → (t ≡ true → IsSound x)
      → (if not t then none else some x) ≡ some b
      → IsSound b
  launch-IsSound false x hx e = cc
  launch-IsSound true x {b} hx e = let q : x ≡ b = cc in subst IsSound q (hx refl)

  pub start-IsSound :
      (now : ℕ) (a : ExecutionAttempt C D R) {b : ExecutionAttempt C D R}
      → IsSound a
      → start k now a ≡ some b
      → IsSound b
  unfolding start
  start-IsSound now a v = launch-IsSound (is_idle a.state) (launched k now a) λ free.
      let (unpublished, open_done) = idle_unpublished a v free in
      record {
        released = λ d. cc (d, open_done);
        terminal = λ w. cc;
        once = omega (arith, v.none_yet unpublished, outcomes-append a.journal execution_started);
        none_yet =
            λ w. omega (arith, v.none_yet unpublished, outcomes-append a.journal execution_started);
        never_running = λ r. cc;
        agrees = λ d. refl;
      }

  closed_terminal :
      (a : ExecutionAttempt C D R)
      → IsSound a
      → has_closed a.worker ≡ true
      → is_terminal a.state ≡ true
  closed_terminal a v d = v.terminal (ground arith)

  pub transition-IsSound :
      (s : ExecutionState) (a : ExecutionAttempt C D R) → IsSound a → IsSound (transition k s a)
  unfolding transition
  transition-IsSound s a v =
      either-IsSound (is_terminal a.state) a _ (λ final. v)
        λ open_state. record {
          released = v.released;
          terminal = λ w. cc (v.terminal w, open_state);
          once = omega (arith, v.once, outcomes-append a.journal (execution_state_changed s));
          none_yet = λ w.
              omega (arith, v.none_yet w, outcomes-append a.journal (execution_state_changed s));
          never_running = v.never_running;
          agrees = λ d. cc (closed_terminal a v d, open_state);
        }

  accept_stop-IsSound :
      (c : C × StopRequest) (a : ExecutionAttempt C D R)
      → IsSound a
      → is_live a.state ≡ true
      → IsSound (accept_stop k c a)
  accept_stop-IsSound (c, q) a v live = record {
    released = v.released;
    terminal = λ w. cc (not_live a.state (v.terminal w), live);
    once = omega (arith, v.once, outcomes-append a.journal (stop_requested q));
    none_yet = λ w. omega (arith, v.none_yet w, outcomes-append a.journal (stop_requested q));
    never_running = λ r. ground arith;
    agrees = λ d. refl;
  }

  either_pair-IsSound :
      (t : Bool) (a b : ExecutionAttempt C D R) (p q : ExecutionSnapshot)
      → IsSound a
      → (t ≡ true → IsSound b)
      → let r : ExecutionAttempt C D R × ExecutionSnapshot = if not t then (a, p) else (b, q) in
        IsSound r.0
  either_pair-IsSound true a b p q va vb = vb refl
  either_pair-IsSound false a b p q va vb = va

  pub request_stop-IsSound :
      (forced : Bool) (reason : String) (a : ExecutionAttempt C D R)
      → IsSound a
      → IsSound (request_stop k forced reason a).0
  unfolding request_stop
  request_stop-IsSound forced reason a v =
      either_pair-IsSound (is_live a.state) a _ _ _ v
        (accept_stop-IsSound (k.request_stop a.controller (mode_of forced) reason) a v)

  pub commit_checkpoint-IsSound :
      (generation : String) (a : ExecutionAttempt C D R)
      → IsSound a
      → IsSound (commit_checkpoint k generation a)
  unfolding commit_checkpoint
  commit_checkpoint-IsSound generation a v = record {
    released = v.released;
    terminal = v.terminal;
    once = omega (arith, v.once, outcomes-append a.journal (checkpoint_committed generation));
    none_yet = λ w.
        omega (arith, v.none_yet w, outcomes-append a.journal (checkpoint_committed generation));
    never_running = λ r. v.never_running (same_state a.manifest generation ∙ r);
    agrees = λ d. sym (same_state a.manifest generation) ∙ v.agrees d;
  }
    where
      same_state :
          (m : Option Manifest) (g : String)
          → manifest_state m ≡ manifest_state (some (with_checkpoint g m))
      same_state none g = refl
      same_state (some m) g = refl

  pub mark_interrupted-IsSound :
      (now : ℕ) (reason : String) (w : WriteOutcome) (exc : String) (a : ExecutionAttempt C D R)
      → IsSound a
      → IsSound (mark_interrupted k now reason w exc a)
  unfolding mark_interrupted
  mark_interrupted-IsSound now reason w exc a v =
      either-IsSound a.done a _ (λ d. v)
        λ open_done. record {
          released = λ d. cc (d, open_done);
          terminal = λ p. refl;
          once = omega (arith, v.once, outcomes-append a.journal (execution_interrupted reason));
          none_yet = λ p.
              omega (arith, v.none_yet p, outcomes-append a.journal (execution_interrupted reason));
          never_running = λ r. cc;
          agrees = λ d. refl;
        }
