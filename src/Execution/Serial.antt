-- ===== src/Execution/Serial.antt =====
-- How many live attempts a Session has (session_executor.py).
use angelus.Prelude.{
  ℕ, ◌+◌, ◌≤◌, ◌≡◌, refl, sym, ◌∙◌, Bool, true, false, not, Option, none, some, List, [], ◌∷◌, ◌++◌,
  String, ok, err, arith, all, keep, length, if◌then◌else◌, length-append, all-append, ap, subst,
  Ensures, Ensures-ok, is_blank,
}
use angelus.Execution.Types.{ExecutionState, Controller, is_live, is_terminal, is_idle}
use angelus.Execution.Attempt.{ExecutionAttempt, new_attempt, launched}
use angelus.Execution.Attempt
use angelus.Execution.Steps.{Step}
use angelus.Execution.Moves.{moves, Step-moves}
use angelus.Execution.Executor.{
  SessionExecutor, ExecutorError, has_live, hooked, start, started, asked, request_stop,
  new_executor,
}
use angelus.Execution.Hosts.{Host, with_latest, after_start, HostStep, HostReach, IsQuiet, attempts}

abbrev has_begun : {C D R : Type 0} → Option (ExecutionAttempt C D R) → Bool
has_begun none = true
has_begun (some a) = not (is_idle a.state)

abbrev has_ended : {C D R : Type 0} → ExecutionAttempt C D R → Bool
has_ended a = is_terminal a.state

settled : (s : ExecutionState) → not (is_idle s) ≡ true → is_live s ≡ false → is_terminal s ≡ true
settled s e f = ground arith

ended_not_live : (s : ExecutionState) → is_terminal s ≡ true → is_live s ≡ false
ended_not_live s e = ground arith

moves_begun :
    (s t : ExecutionState) → moves s t ≡ true → not (is_idle s) ≡ true → not (is_idle t) ≡ true
moves_begun s t m e = ground arith

moves_ended :
    (s t : ExecutionState) → moves s t ≡ true → is_terminal s ≡ true → is_terminal t ≡ true
moves_ended s t m e = ground arith

module _ {C D R : Type 0} where
  record IsSerial (h : Host C D R) : Type 0 where
    begun : has_begun h.executor.attempt ≡ true
    ended : all has_ended h.retired ≡ true
    counted : h.executor.attempt_number ≡ length (with_latest h.executor.attempt h.retired)

  retire :
      (latest : Option (ExecutionAttempt C D R)) (old : List (ExecutionAttempt C D R))
      → has_begun latest ≡ true
      → has_live latest ≡ false
      → all has_ended old ≡ true
      → all has_ended (with_latest latest old) ≡ true
  retire none old b l e = e
  retire (some a) old b l e = rw (settled a.state b l) e

  replaced :
      (p : ExecutionAttempt C D R → Bool) (newer older : List (ExecutionAttempt C D R))
      (a b : ExecutionAttempt C D R)
      → all p (newer ++ a ∷ older) ≡ true
      → (p a ≡ true → p b ≡ true)
      → all p (newer ++ b ∷ older) ≡ true
  replaced p newer older a b e f =
      ground (arith, e, f, all-append p newer (a ∷ older), all-append p newer (b ∷ older))

  replaced_length :
      (newer older : List (ExecutionAttempt C D R)) (a b : ExecutionAttempt C D R)
      → length (newer ++ a ∷ older) ≡ length (newer ++ b ∷ older)
  replaced_length newer older a b =
      omega (arith, length-append newer (a ∷ older), length-append newer (b ∷ older))

  with_length :
      (latest : Option (ExecutionAttempt C D R)) (xs ys : List (ExecutionAttempt C D R))
      → length xs ≡ length ys
      → length (with_latest latest xs) ≡ length (with_latest latest ys)
  with_length none xs ys e = e
  with_length (some a) xs ys e = omega (arith, e)

  none_live :
      (old : List (ExecutionAttempt C D R))
      → all has_ended old ≡ true
      → length (keep (λ a. is_live a.state) old) ≡ 0
  none_live [] e = refl
  none_live (a ∷ old) e = ground (arith, none_live old, ended_not_live a.state)

  serial_one_live :
      (h : Host C D R)
      → IsSerial h
      → length (keep (λ a. is_live a.state) (with_latest h.executor.attempt h.retired)) ≤ 1
  serial_one_live h v = counts h.executor.attempt
    where
      counts :
          (latest : Option (ExecutionAttempt C D R))
          → length (keep (λ a. is_live a.state) (with_latest latest h.retired)) ≤ 1
      counts none = omega (arith, none_live h.retired v.ended)
      counts (some a) = ground (arith, none_live h.retired v.ended)

module _ (k : Controller) {D R : Type 0} where
  open k use {C}

  after_start-IsSerial :
      (h : Host C D R) (t u : Bool) (a x : ExecutionAttempt C D R)
      → IsSerial h
      → has_live h.executor.attempt ≡ t
      → u ≡ true
      → is_idle x.state ≡ false
      → IsSerial (
          after_start h (
            if t
            then (h.executor, err ExecutorError.runtime_error)
            else started k
                (record h.executor { attempt_number = h.executor.attempt_number + 1 })
                a
                (if not u then none else some x)))
  after_start-IsSerial h true u a x v l i b = v
  after_start-IsSerial h false false a x v l i b = absurd (cc i)
  after_start-IsSerial h false true a x v l i b = record {
    begun = ground arith;
    ended = retire h.executor.attempt h.retired v.begun l v.ended;
    counted = omega (arith, v.counted);
  }

  start-IsSerial :
      (before_start : Option (ExecutionAttempt C D R → ExecutionAttempt C D R))
      (execution_id : String) (now : ℕ) (h : Host C D R)
      → IsQuiet k before_start
      → IsSerial h
      → IsSerial (after_start h (start k before_start execution_id now h.executor))
  unfolding start Attempt.start new_attempt
  start-IsSerial before_start execution_id now h quiet v =
      let a =
        hooked before_start
          (new_attempt k h.executor.session_id (h.executor.attempt_number + 1) execution_id) in
      after_start-IsSerial h (has_live h.executor.attempt) (is_idle a.state) a (launched k now a) v
        refl (quiet _ refl) refl

  latest-IsSerial :
      (h : Host C D R) (a b : ExecutionAttempt C D R)
      → IsSerial h
      → h.executor.attempt ≡ some a
      → moves a.state b.state ≡ true
      → IsSerial (record h { executor = record h.executor { attempt = some b } })
  latest-IsSerial h a b v e m = record {
    begun = moves_begun a.state b.state m (subst (λ o. has_begun o ≡ true) e v.begun);
    ended = v.ended;
    counted =
        v.counted
        ∙ subst (λ o. length (with_latest o h.retired) ≡ length (b ∷ h.retired)) (sym e) refl;
  }

  asked-IsSerial :
      (forced : Bool) (reason : String) (h : Host C D R) (latest : Option (ExecutionAttempt C D R))
      → h.executor.attempt ≡ latest
      → IsSerial h
      → IsSerial (record h { executor = (asked k forced reason h.executor latest).0 })
  asked-IsSerial forced reason h none e v = v
  asked-IsSerial forced reason h (some a) e v =
      latest-IsSerial h a _ v e (Step-moves k (Step.stops forced reason))

  request_stop-IsSerial :
      (forced : Bool) (reason : String) (h : Host C D R)
      → IsSerial h
      → IsSerial (record h { executor = (request_stop k forced reason h.executor).0 })
  unfolding request_stop
  request_stop-IsSerial forced reason h v = asked-IsSerial forced reason h h.executor.attempt refl v

  HostStep-IsSerial : {h i : Host C D R} → IsSerial h → HostStep k h i → IsSerial i
  HostStep-IsSerial {h} v (HostStep.begins before_start execution_id now quiet) =
      start-IsSerial before_start execution_id now h quiet v
  HostStep-IsSerial {h} v (HostStep.asks forced reason) = request_stop-IsSerial forced reason h v
  HostStep-IsSerial {h} v (HostStep.works {a} {b} e s) = latest-IsSerial h a b v e (Step-moves k s)
  HostStep-IsSerial {h} v (HostStep.lingers newer older {a} {b} e s) = record {
    begun = v.begun;
    ended =
        replaced has_ended newer older a b (subst (λ old. all has_ended old ≡ true) e v.ended)
          (moves_ended a.state b.state (Step-moves k s));
    counted =
        v.counted
        ∙ with_length h.executor.attempt _ _ (ap length e ∙ replaced_length newer older a b);
  }

  HostReach-IsSerial : {h i : Host C D R} → IsSerial h → HostReach k h i → IsSerial i
  HostReach-IsSerial v HostReach.here = v
  HostReach-IsSerial v (HostReach.next path s) = HostStep-IsSerial (HostReach-IsSerial v path) s

  fresh-IsSerial :
      (session_id : String) (e : SessionExecutor C D R)
      → new_executor k session_id ≡ ok e
      → IsSerial (record { executor = e; retired = [] })
  unfolding new_executor
  fresh-IsSerial session_id e q =
      Ensures-ok fresh (new_executor k session_id) (checked (is_blank session_id)) q
    where
      fresh : SessionExecutor C D R → Type 0
      fresh i = IsSerial (record { executor = i; retired = [] })

      checked :
          (t : Bool)
          → Ensures fresh (
              if t
              then err ExecutorError.value_error
              else ok (record { session_id = session_id; attempt_number = 0; attempt = none }))
      checked true = tt
      checked false = record { begun = refl; ended = refl; counted = refl }

  -- From a new executor, whatever the calls of `start` and `request_stop`, the steps of the
  -- current attempt and those of attempts before it, one attempt at most is in a live state and
  -- the attempt number counts the attempts, for `before_start` hooks that leave an idle attempt
  -- idle.
  pub one_live :
      (session_id : String) (e : SessionExecutor C D R) (h : Host C D R)
      → new_executor k session_id ≡ ok e
      → HostReach k (record { executor = e; retired = [] }) h
      → (length (keep (λ a. is_live a.state) (attempts k h)) ≤ 1)
        × (h.executor.attempt_number ≡ length (attempts k h))
  one_live session_id e h q path =
      let v = HostReach-IsSerial (fresh-IsSerial session_id e q) path in
      (serial_one_live h v, v.counted)
