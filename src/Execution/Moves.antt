-- ===== src/Execution/Moves.antt =====
-- How the state of an attempt moves (state.py, execution_attempt.py).
use angelus.Prelude.{◌≡◌, refl, Bool, true, false, not, ◌||◌, none, some, if◌then◌else◌, arith}
use angelus.Execution.Types.{
  ExecutionState, queued, completed, failed, stopping, force_stopping, stopped, interrupted,
  ExecutionSnapshot, Controller, is_live, is_terminal, is_idle, is_interrupted, is_force,
}
use angelus.Execution.Attempt.{
  ExecutionAttempt, start, launched, transition, request_stop, mode_of, commit_checkpoint,
  mark_interrupted, run_failed, run_returned, run_finally, publish_ephemeral, release,
}
use angelus.Execution.Steps.{Step, Reach}

-- The moves that the description of `ExecutionState` allows: an end state is only left for another
-- one, and nothing comes back to `idle`.
abbrev pub moves : ExecutionState → ExecutionState → Bool
moves s t = if is_terminal s then is_terminal t else (is_idle s || not (is_idle t))

moves_refl : (s : ExecutionState) → moves s s ≡ true
moves_refl s = ground arith

moves_trans : (r s t : ExecutionState) → moves r s ≡ true → moves s t ≡ true → moves r t ≡ true
moves_trans r s t f g = ground arith

moves_end : (s t : ExecutionState) → is_terminal t ≡ true → moves s t ≡ true
moves_end s t e = ground arith

moves_live : (s t : ExecutionState) → is_terminal s ≡ false → is_live t ≡ true → moves s t ≡ true
moves_live s t e f = ground arith

live_open : (s : ExecutionState) → is_live s ≡ true → is_terminal s ≡ false
live_open s e = ground arith

stop_live : (t : Bool) → is_live (if t then force_stopping else stopping) ≡ true
stop_live t = ground arith

ends :
    (t : Bool) (s : ExecutionState)
    → is_terminal s ≡ true
    → is_terminal (if t then stopped else s) ≡ true
ends t s e = ground arith

idle_to_queued : (s : ExecutionState) → is_idle s ≡ true → moves s queued ≡ true
idle_to_queued s e = ground arith

module _ (k : Controller) {D R : Type 0} where
  open k use {C, should_stop}

  either_moves :
      (s : ExecutionState) (t : Bool) (x y : ExecutionAttempt C D R)
      → (t ≡ true → moves s x.state ≡ true)
      → (t ≡ false → moves s y.state ≡ true)
      → moves s (if t then x else y).state ≡ true
  either_moves s true x y hx hy = hx refl
  either_moves s false x y hx hy = hy refl

  start_moves :
      (s : ExecutionState) (t : Bool) (x : ExecutionAttempt C D R) {y : ExecutionAttempt C D R}
      → (t ≡ true → moves s x.state ≡ true)
      → (if not t then none else some x) ≡ some y
      → moves s y.state ≡ true
  start_moves s false x h e = cc
  start_moves s true x {y} h e = let q : x ≡ y = cc in cc (h refl, q)

  pair_moves :
      (s : ExecutionState) (t : Bool) (x y : ExecutionAttempt C D R) (p q : ExecutionSnapshot)
      → (t ≡ false → moves s x.state ≡ true)
      → (t ≡ true → moves s y.state ≡ true)
      → let r : ExecutionAttempt C D R × ExecutionSnapshot = if not t then (x, p) else (y, q) in
        moves s r.0.state ≡ true
  pair_moves s true x y p q hx hy = hy refl
  pair_moves s false x y p q hx hy = hx refl

  pub Step-moves : {a b : ExecutionAttempt C D R} → Step k a b → moves a.state b.state ≡ true
  unfolding start transition request_stop commit_checkpoint mark_interrupted run_failed run_returned
      run_finally publish_ephemeral release
  Step-moves {a} (Step.starts now e) =
      start_moves a.state (is_idle a.state) (launched k now a) (idle_to_queued a.state) e
  Step-moves {a} (Step.transitions s live begun) =
      either_moves a.state (is_terminal a.state) a _ (λ t. moves_refl a.state)
        (λ t. moves_live a.state s t live)
  Step-moves {a} (Step.stops forced reason) =
      pair_moves a.state (is_live a.state) a _ _ _ (λ t. moves_refl a.state)
        (λ t.
          moves_live a.state _ (live_open a.state t)
            (stop_live (is_force (k.request_stop a.controller (mode_of forced) reason).1.mode)))
  Step-moves {a} (Step.commits generation) = moves_refl a.state
  Step-moves {a} (Step.interrupts now reason w exc) =
      either_moves a.state a.done a _ (λ t. moves_refl a.state)
        (λ t. moves_end a.state interrupted refl)
  Step-moves {a} (Step.fails text working) =
      either_moves a.state (is_interrupted a.state) _ _ (λ t. moves_refl a.state)
        (λ t. moves_end a.state _ (ends (should_stop a.controller) failed refl))
  Step-moves {a} (Step.returns r working) =
      either_moves a.state (is_interrupted a.state) _ _ (λ t. moves_refl a.state)
        (λ t. moves_end a.state _ (ends (should_stop a.controller) completed refl))
  Step-moves {a} (Step.finishes now w exc behind) = moves_refl a.state
  Step-moves {a} (Step.releases closed) = moves_refl a.state
  Step-moves {a} (Step.publishes w event) = moves_refl a.state

  -- However many steps an attempt takes, a terminal state is only ever followed by a terminal
  -- state, and an attempt that has left `idle` never comes back to it.
  pub Reach-moves : {a b : ExecutionAttempt C D R} → Reach k a b → moves a.state b.state ≡ true
  Reach-moves {a} Reach.here = moves_refl a.state
  Reach-moves {a} {b} (Reach.next {b = m} path s) =
      moves_trans a.state m.state b.state (Reach-moves path) (Step-moves s)
