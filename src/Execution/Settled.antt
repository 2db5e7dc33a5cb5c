-- ===== src/Execution/Settled.antt =====
-- The attempts behind a shutdown (session_handler.py, sigint_supervisor.py).
use angelus.Prelude.{
  ℕ, ◌≡◌, refl, ◌∙◌, Bool, true, false, ◌&&◌, not, none, some, List, [], ◌∷◌, ◌++◌, String, mem,
  if◌then◌else◌, arith, eq_refl,
}
use angelus.Execution.Trace.{WriteOutcome}
use angelus.Execution.Types.{
  ExecutionSnapshot, Controller, is_live, is_terminal, is_idle, is_interrupted,
}
use angelus.Execution.Attempt.{
  ExecutionAttempt, new_attempt, start, launched, transition, request_stop, commit_checkpoint,
  mark_interrupted, run_failed, run_returned, run_finally, publish_ephemeral, release,
}
use angelus.Execution.Steps.{manifest_state, Step, Reach, IsSound}
use angelus.Execution.Outcomes.{Reach-IsSound}
use angelus.Execution.Shutdown.{live_attempts, force_stop, request_force_stop_all, settle}

live_named :
    {C D R : Type 0} (a : ExecutionAttempt C D R) (newer older : List (ExecutionAttempt C D R))
    → is_live a.state ≡ true
    → mem a.execution_id (live_attempts (newer ++ a ∷ older)) ≡ true
live_named a [] older e = ground (arith, e, eq_refl a.execution_id)
live_named a (b ∷ newer) older e = ground (arith, live_named a newer older e)

module _ (k : Controller) {D R : Type 0} where
  open k use {C}

  either_id :
      (i : String) (t : Bool) (x y : ExecutionAttempt C D R)
      → x.execution_id ≡ i
      → y.execution_id ≡ i
      → (if t then x else y).execution_id ≡ i
  either_id i true x y hx hy = hx
  either_id i false x y hx hy = hy

  start_id :
      (t : Bool) (x : ExecutionAttempt C D R) {y : ExecutionAttempt C D R}
      → (if not t then none else some x) ≡ some y
      → y.execution_id ≡ x.execution_id
  start_id false x e = cc
  start_id true x e = cc

  pair_id :
      (i : String) (t : Bool) (x y : ExecutionAttempt C D R) (p q : ExecutionSnapshot)
      → x.execution_id ≡ i
      → y.execution_id ≡ i
      → let r : ExecutionAttempt C D R × ExecutionSnapshot = if not t then (x, p) else (y, q) in
        r.0.execution_id ≡ i
  pair_id i true x y p q hx hy = hy
  pair_id i false x y p q hx hy = hx

  Step-id : {a b : ExecutionAttempt C D R} → Step k a b → b.execution_id ≡ a.execution_id
  unfolding start transition request_stop commit_checkpoint mark_interrupted run_failed run_returned
      run_finally publish_ephemeral release
  Step-id {a} (Step.starts now e) = start_id (is_idle a.state) (launched k now a) e
  Step-id {a} (Step.transitions s live begun) =
      either_id a.execution_id (is_terminal a.state) a _ refl refl
  Step-id {a} (Step.stops forced reason) =
      pair_id a.execution_id (is_live a.state) a _ _ _ refl refl
  Step-id {a} (Step.commits generation) = refl
  Step-id {a} (Step.interrupts now reason w exc) = either_id a.execution_id a.done a _ refl refl
  Step-id {a} (Step.fails text working) =
      either_id a.execution_id (is_interrupted a.state) _ _ refl refl
  Step-id {a} (Step.returns r working) =
      either_id a.execution_id (is_interrupted a.state) _ _ refl refl
  Step-id {a} (Step.finishes now w exc behind) = refl
  Step-id {a} (Step.releases closed) = refl
  Step-id {a} (Step.publishes w event) = refl

  Reach-id : {a b : ExecutionAttempt C D R} → Reach k a b → b.execution_id ≡ a.execution_id
  Reach-id Reach.here = refl
  Reach-id (Reach.next path s) = Step-id s ∙ Reach-id path

  Reach-append : {a b c : ExecutionAttempt C D R} → Reach k a b → Reach k b c → Reach k a c
  Reach-append p Reach.here = p
  Reach-append p (Reach.next q s) = Reach.next (Reach-append p q) s

  pub record IsSettled (a : ExecutionAttempt C D R) : Type 0 where
    pub ended : is_terminal a.state ≡ true
    pub recorded : manifest_state a.manifest ≡ some a.state

  either-IsSettled :
      (t : Bool) (x y : ExecutionAttempt C D R)
      → (t ≡ true → IsSettled x)
      → IsSettled y
      → IsSettled (if t then x else y)
  either-IsSettled true x y hx hy = hx refl
  either-IsSettled false x y hx hy = hy

  named-IsSettled :
      (m d : Bool) (x y : ExecutionAttempt C D R)
      → m ≡ true
      → IsSettled x
      → (d ≡ true → IsSettled y)
      → IsSettled (if m && not d then x else y)
  named-IsSettled false d x y e hx hy = absurd (cc e)
  named-IsSettled true true x y e hx hy = hy refl
  named-IsSettled true false x y e hx hy = hx

  done-IsSettled : (a : ExecutionAttempt C D R) → IsSound a → a.done ≡ true → IsSettled a
  done-IsSettled a v d = record {
    ended = v.terminal (ground (arith, v.released d));
    recorded = v.agrees (ground (arith, v.released d));
  }

  settle-IsSettled :
      (now : ℕ) (reason : String) (ids : List String) (flushed : String → WriteOutcome × String)
      (a : ExecutionAttempt C D R)
      → IsSound a
      → mem a.execution_id ids ≡ true
      → IsSettled (settle k now reason ids flushed a)
  unfolding mark_interrupted
  settle-IsSettled now reason ids flushed a v named =
      named-IsSettled (mem a.execution_id ids) a.done _ a named
        (either-IsSettled a.done a _ (done-IsSettled a v)
          (record { ended = refl; recorded = refl }))
        (done-IsSettled a v)

  force_stop_path :
      (reason : String) (ids : List String) (a : ExecutionAttempt C D R)
      → Reach k a (force_stop k reason ids a)
  force_stop_path reason ids a = asked (mem a.execution_id ids)
    where
      asked : (t : Bool) → Reach k a (if t then (request_stop k true reason a).0 else a)
      asked true = Reach.next Reach.here (Step.stops true reason)
      asked false = Reach.here

  -- A shutdown reaches every attempt that is live when it begins: however the attempt then
  -- moves, in time or not, behind the wait for it its state is terminal and its manifest says
  -- that state.
  pub shutdown_settles :
      (session_id : String) (n : ℕ) (execution_id reason : String) (a b : ExecutionAttempt C D R)
      (newer older : List (ExecutionAttempt C D R)) (now : ℕ)
      (flushed : String → WriteOutcome × String)
      → Reach k (new_attempt k session_id n execution_id) a
      → is_live a.state ≡ true
      → Reach k (force_stop k reason (request_force_stop_all k reason (newer ++ a ∷ older)).1 a) b
      → IsSettled
          (settle k now reason (request_force_stop_all k reason (newer ++ a ∷ older)).1 flushed b)
  unfolding request_force_stop_all
  shutdown_settles session_id n execution_id reason a b newer older now flushed before live after =
      let ids = live_attempts (newer ++ a ∷ older) in
      let path = Reach-append (force_stop_path reason ids a) after in
      settle-IsSettled now reason ids flushed b
        (Reach-IsSound k session_id n execution_id (Reach-append before path))
        (rw (Reach-id path) (live_named a newer older live))
