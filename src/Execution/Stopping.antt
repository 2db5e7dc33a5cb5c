-- ===== src/Execution/Stopping.antt =====
-- A stop request that reached a worker, and the outcome that the worker publishes behind it
-- (execution_attempt.py).
use angelus.Prelude.{◌≡◌, refl, Bool, true, false, not, none, some, String, if◌then◌else◌, arith}
use angelus.Execution.Types.{
  ExecutionState, completed, failed, stopping, force_stopping, stopped, interrupted,
  ExecutionSnapshot, Controller, is_live, is_terminal, is_idle, is_interrupted, is_force,
}
use angelus.Execution.Attempt.{
  Worker, ExecutionAttempt, start, launched, accept_stop, transition, request_stop, mode_of,
  commit_checkpoint, mark_interrupted, run_failed, run_returned, run_finally, publish_ephemeral,
  release,
}
use angelus.Execution.Steps.{has_published, Step, Reach}

abbrev pub is_stopped : ExecutionState → Bool
is_stopped stopped = true
is_stopped interrupted = true
is_stopped _ = false

stopped_final : (s : ExecutionState) → is_stopped s ≡ true → is_terminal s ≡ true
stopped_final s e = ground arith

live_not_idle : (s : ExecutionState) → is_live s ≡ true → is_idle s ≡ false
live_not_idle s e = ground arith

stop_begun : (t : Bool) → is_idle (if t then force_stopping else stopping) ≡ false
stop_begun t = ground arith

stops_over :
    (t : Bool) (s : ExecutionState) → t ≡ true → is_stopped (if t then stopped else s) ≡ true
stops_over t s e = ground arith

interrupted_stopped : (s : ExecutionState) → is_interrupted s ≡ true → is_stopped s ≡ true
interrupted_stopped s e = ground arith

stopped_begun : (s : ExecutionState) → is_stopped s ≡ true → is_idle s ≡ false
stopped_begun s e = ground arith

not_live : (s : ExecutionState) → is_terminal s ≡ true → is_live s ≡ false
not_live s e = ground arith

module _ (k : Controller) {D R : Type 0} where
  open k use {C, should_stop}

  record IsStopping (a : ExecutionAttempt C D R) : Type 0 where
    asked : should_stop a.controller ≡ true
    begun : is_idle a.state ≡ false
    outcome : has_published a.worker ≡ true → is_stopped a.state ≡ true

  either-IsStopping :
      (t : Bool) (x y : ExecutionAttempt C D R)
      → (t ≡ true → IsStopping x)
      → (t ≡ false → IsStopping y)
      → IsStopping (if t then x else y)
  either-IsStopping true x y hx hy = hx refl
  either-IsStopping false x y hx hy = hy refl

  no_second_start :
      (t : Bool) (x : ExecutionAttempt C D R) {y : ExecutionAttempt C D R}
      → t ≡ false
      → (if not t then none else some x) ≡ some y
      → IsStopping y
  no_second_start false x e p = cc
  no_second_start true x e p = cc

  pair-IsStopping :
      (t : Bool) (a b : ExecutionAttempt C D R) (p q : ExecutionSnapshot)
      → IsStopping a
      → (t ≡ true → IsStopping b)
      → let r : ExecutionAttempt C D R × ExecutionSnapshot = if not t then (a, p) else (b, q) in
        IsStopping r.0
  pair-IsStopping true a b p q va vb = vb refl
  pair-IsStopping false a b p q va vb = va

  accepted :
      (t : Bool) (a b : ExecutionAttempt C D R) (p q : ExecutionSnapshot)
      → t ≡ true
      → IsStopping b
      → let r : ExecutionAttempt C D R × ExecutionSnapshot = if not t then (a, p) else (b, q) in
        IsStopping r.0
  accepted true a b p q e v = v
  accepted false a b p q e v = absurd (cc e)

  accept_stop-IsStopping :
      (forced : Bool) (reason : String) (a : ExecutionAttempt C D R)
      → (has_published a.worker ≡ true → is_terminal a.state ≡ true)
      → is_live a.state ≡ true
      → IsStopping (accept_stop k (k.request_stop a.controller (mode_of forced) reason) a)
  accept_stop-IsStopping forced reason a ended live = record {
    asked = k.stops a.controller (mode_of forced) reason;
    begun = stop_begun (is_force (k.request_stop a.controller (mode_of forced) reason).1.mode);
    outcome = λ p. absurd (cc (not_live a.state (ended p), live));
  }

  request_stop-IsStopping :
      (forced : Bool) (reason : String) (a : ExecutionAttempt C D R)
      → a.worker ≡ Worker.working
      → is_live a.state ≡ true
      → IsStopping (request_stop k forced reason a).0
  unfolding request_stop
  request_stop-IsStopping forced reason a working live =
      accepted (is_live a.state) a _ _ _ live
        (accept_stop-IsStopping forced reason a (ground arith) live)

  -- What a worker that was asked to stop publishes.
  outcome-IsStopping :
      (a : ExecutionAttempt C D R) (s : ExecutionState) (b : ExecutionAttempt C D R)
      → IsStopping a
      → b.controller ≡ a.controller
      → b.state ≡ (if should_stop a.controller then stopped else s)
      → IsStopping b
  outcome-IsStopping a s b v same e =
      let over : is_stopped b.state ≡ true =
        cc (e, stops_over (should_stop a.controller) s v.asked) in
      record { asked = cc (same, v.asked); begun = stopped_begun b.state over; outcome = λ p. over }

  leaving-IsStopping :
      (a b : ExecutionAttempt C D R)
      → IsStopping a
      → b.controller ≡ a.controller
      → b.state ≡ a.state
      → is_interrupted a.state ≡ true
      → IsStopping b
  leaving-IsStopping a b v same e stop =
      let over : is_stopped b.state ≡ true = cc (e, interrupted_stopped a.state stop) in
      record { asked = cc (same, v.asked); begun = stopped_begun b.state over; outcome = λ p. over }

  Step-IsStopping : {a b : ExecutionAttempt C D R} → IsStopping a → Step k a b → IsStopping b
  unfolding start transition request_stop commit_checkpoint mark_interrupted run_failed run_returned
      run_finally publish_ephemeral release
  Step-IsStopping {a} v (Step.starts now e) =
      no_second_start (is_idle a.state) (launched k now a) v.begun e
  Step-IsStopping {a} v (Step.transitions s live begun) =
      either-IsStopping (is_terminal a.state) a _ (λ t. v)
        λ t. record {
          asked = v.asked;
          begun = live_not_idle s live;
          outcome = λ p. absurd (cc (stopped_final a.state (v.outcome p), t));
        }
  Step-IsStopping {a} v (Step.stops forced reason) =
      pair-IsStopping (is_live a.state) a _ _ _ v
        (accept_stop-IsStopping forced reason a λ p. stopped_final a.state (v.outcome p))
  Step-IsStopping {a} v (Step.commits generation) = record {
    asked = v.asked;
    begun = v.begun;
    outcome = v.outcome;
  }
  Step-IsStopping {a} v (Step.interrupts now reason w exc) =
      either-IsStopping a.done a _ (λ t. v)
        λ t. record { asked = v.asked; begun = refl; outcome = λ p. refl }
  Step-IsStopping {a} v (Step.fails text working) =
      either-IsStopping (is_interrupted a.state) _ _ (leaving-IsStopping a _ v refl refl)
        λ t. outcome-IsStopping a failed _ v refl refl
  Step-IsStopping {a} v (Step.returns r working) =
      either-IsStopping (is_interrupted a.state) _ _ (leaving-IsStopping a _ v refl refl)
        λ t. outcome-IsStopping a completed _ v refl refl
  Step-IsStopping {a} v (Step.finishes now w exc behind) = record {
    asked = v.asked;
    begun = v.begun;
    outcome = λ p. v.outcome (ground arith);
  }
  Step-IsStopping {a} v (Step.releases closed) = record {
    asked = v.asked;
    begun = v.begun;
    outcome = λ p. v.outcome (ground arith);
  }
  Step-IsStopping {a} v (Step.publishes w event) = record {
    asked = v.asked;
    begun = v.begun;
    outcome = v.outcome;
  }

  Reach-IsStopping : {a b : ExecutionAttempt C D R} → IsStopping a → Reach k a b → IsStopping b
  Reach-IsStopping v Reach.here = v
  Reach-IsStopping v (Reach.next path s) = Step-IsStopping (Reach-IsStopping v path) s

  -- Once a stop request has found an attempt live and its worker in the operation, a later
  -- state in which the worker has published is `stopped` or `interrupted`, and its controller
  -- is asked to stop, whatever the operation returns or raises and whatever else happens in
  -- between.
  pub stop_wins :
      (forced : Bool) (reason : String) (a b : ExecutionAttempt C D R)
      → is_live a.state ≡ true
      → a.worker ≡ Worker.working
      → Reach k (request_stop k forced reason a).0 b
      → has_published b.worker ≡ true
      → (should_stop b.controller ≡ true) × (is_stopped b.state ≡ true)
  stop_wins forced reason a b live working path done =
      let v = Reach-IsStopping (request_stop-IsStopping forced reason a working live) path in
      (v.asked, v.outcome done)
