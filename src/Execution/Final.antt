-- ===== src/Execution/Final.antt =====
-- The steps of an attempt that is done (execution_attempt.py).
use angelus.Prelude.{
  ℕ, ◌≡◌, refl, ◌∙◌, Bool, true, false, not, none, some, String, if◌then◌else◌, arith,
}
use angelus.Execution.Types.{ExecutionState, Controller, is_live, is_terminal, is_idle}
use angelus.Execution.Attempt.{
  ExecutionAttempt, new_attempt, snapshot, start, launched, transition, request_stop,
  commit_checkpoint, mark_interrupted, publish_ephemeral,
}
use angelus.Execution.Steps.{Step, Reach, IsSound}
use angelus.Execution.Outcomes.{Step-IsSound, Reach-IsSound}

not_idle : (s : ExecutionState) → is_terminal s ≡ true → is_idle s ≡ false
not_idle s e = ground arith

not_live : (s : ExecutionState) → is_terminal s ≡ true → is_live s ≡ false
not_live s e = ground arith

module _ {A B : Type 0} (f : A → B) where
  kept_then : (t : Bool) (x y : A) → t ≡ true → f (if t then x else y) ≡ f x
  kept_then true x y e = refl
  kept_then false x y e = cc

  kept_else : (t : Bool) (x y : A) → t ≡ false → f (if t then x else y) ≡ f y
  kept_else false x y e = refl
  kept_else true x y e = cc

  no_start :
      (t : Bool) (x : A) {y : A}
      → t ≡ false
      → (if not t then none else some x) ≡ some y
      → (z : B) → f y ≡ z
  no_start false x e p z = cc
  no_start true x e p z = cc

  kept_pair :
      {P : Type 0} (t : Bool) (x y : A) (p q : P)
      → t ≡ false
      → let r : A × P = if not t then (x, p) else (y, q) in f r.0 ≡ f x
  kept_pair false x y p q e = refl
  kept_pair true x y p q e = cc

module _ (k : Controller) {D R : Type 0} where
  open k use {C}

  ends : (a : ExecutionAttempt C D R) → IsSound a → a.done ≡ true → is_terminal a.state ≡ true
  ends a v d = v.terminal (ground (arith, v.released d))

  final-Step :
      {a b : ExecutionAttempt C D R}
      → IsSound a
      → a.done ≡ true
      → Step k a b
      → (snapshot k b ≡ snapshot k a) × (b.done ≡ true)
  unfolding snapshot start transition request_stop commit_checkpoint mark_interrupted
      publish_ephemeral
  final-Step {a} v d (Step.starts now e) =
      let stuck = not_idle a.state (ends a v d) in
      (
        no_start (snapshot k) (is_idle a.state) (launched k now a) stuck e _,
        no_start (λ x. x.done) (is_idle a.state) (launched k now a) stuck e _,
      )
  final-Step {a} v d (Step.transitions s live begun) =
      let final = ends a v d in
      (
        kept_then (snapshot k) (is_terminal a.state) a _ final,
        kept_then (λ x. x.done) (is_terminal a.state) a _ final ∙ d,
      )
  final-Step {a} v d (Step.stops forced reason) =
      let stuck = not_live a.state (ends a v d) in
      (
        kept_pair (snapshot k) (is_live a.state) a _ _ _ stuck,
        kept_pair (λ x. x.done) (is_live a.state) a _ _ _ stuck ∙ d,
      )
  final-Step {a} v d (Step.commits generation) = (refl, d)
  final-Step {a} v d (Step.interrupts now reason w exc) =
      (kept_then (snapshot k) a.done a _ d, kept_then (λ x. x.done) a.done a _ d ∙ d)
  final-Step {a} v d (Step.fails text working) = absurd (cc (v.released d, working))
  final-Step {a} v d (Step.returns r working) = absurd (cc (v.released d, working))
  final-Step {a} v d (Step.finishes now w exc behind) = absurd (cc (v.released d, behind))
  final-Step {a} v d (Step.releases closed) = absurd (cc (v.released d, closed))
  final-Step {a} v d (Step.publishes w event) = (refl, d)

  final_path :
      {a b : ExecutionAttempt C D R}
      → IsSound a
      → a.done ≡ true
      → Reach k a b
      → IsSound b × (snapshot k b ≡ snapshot k a) × (b.done ≡ true)
  final_path v d Reach.here = (v, refl, d)
  final_path v d (Reach.next path s) =
      let (w, same, still) = final_path v d path in
      let (e, stays) = final-Step w still s in (Step-IsSound k w s, e ∙ same, stays)

  -- Once an attempt's waiters are released, no later step of any kind changes its snapshot.
  pub final_snapshot :
      (session_id : String) (n : ℕ) (execution_id : String) {a b : ExecutionAttempt C D R}
      → Reach k (new_attempt k session_id n execution_id) a
      → a.done ≡ true
      → Reach k a b
      → snapshot k b ≡ snapshot k a
  final_snapshot session_id n execution_id before d after =
      (final_path (Reach-IsSound k session_id n execution_id before) d after).1
