-- ===== src/Execution/Restart.antt =====
-- The reconciliation at a host's start, on what attempts left on disk (reconcile.py,
-- execution_attempt.py).
use angelus.Prelude.{
  ℕ, ◌≡◌, refl, ◌∙◌, Bool, true, false, not, Option, none, some, List, [], ◌∷◌, ◌++◌, String,
  if◌then◌else◌,
}
use angelus.Execution.Types.{
  ExecutionState, queued, Controller, is_idle, is_terminal, Manifest, execution_interrupted,
  execution_state_changed,
}
use angelus.Execution.Attempt.{ExecutionAttempt, start, launched, transition}
use angelus.Execution.Reconcile.{
  Stored, state_of, has_active, marked, is_left_live, reconcile_one, reconcile_interrupted_attempts,
}

marked_settled : (now : ℕ) (m : Option Manifest) → has_active (state_of (marked now m)) ≡ false
marked_settled now none = refl
marked_settled now (some m) = refl

reconcile_one_settled : (now : ℕ) (s : Stored) → is_left_live (reconcile_one now s) ≡ false
reconcile_one_settled now s = decided (is_left_live s) refl
  where
    decided :
        (t : Bool)
        → is_left_live s ≡ t
        → is_left_live (
            if t
            then record s {
              journal = s.journal ++ execution_interrupted "host_restart" ∷ [];
              manifest = marked now s.manifest;
            }
            else s)
          ≡ false
    decided true e = rw (marked_settled now s.manifest) refl
    decided false e = e

reconciled : (now : ℕ) (s : Stored) → is_left_live s ≡ false → reconcile_one now s ≡ s
reconciled now s e = rw e refl

skips :
    (later : ℕ) (s : Stored) (rest : List Stored × List String) (stored : List Stored)
    → is_left_live s ≡ false
    → rest ≡ (stored, [])
    → ◌≡◌ {A = List Stored × List String}
        (reconcile_one later s ∷ rest.0, if is_left_live s then s.execution_id ∷ rest.1 else rest.1)
        (s ∷ stored, [])
skips later s rest stored e f = rw (e, f) refl

-- A second reconciliation changes no directory and names no attempt: the first one has marked
-- every attempt that it takes for live.
reconcile_twice :
    (now later : ℕ) (stored : List Stored)
    → reconcile_interrupted_attempts later (reconcile_interrupted_attempts now stored).0
      ≡ ((reconcile_interrupted_attempts now stored).0, [])
unfolding reconcile_interrupted_attempts
reconcile_twice now later [] = refl
reconcile_twice now later (s ∷ stored) =
    skips later (reconcile_one now s) _ _ (reconcile_one_settled now s)
      (reconcile_twice now later stored)

-- What an attempt has written, when its host is killed.
abbrev pub on_disk : {C D R : Type 0} → ExecutionAttempt C D R → Stored
on_disk a = record { execution_id = a.execution_id; manifest = a.manifest; journal = a.journal }

module _ (k : Controller) {D R : Type 0} where
  open k use {C}

  -- `transition` to one state after the other.
  abbrev pub transit : List ExecutionState → ExecutionAttempt C D R → ExecutionAttempt C D R
  transit [] a = a
  transit (s ∷ ss) a = transit ss (transition k s a)

  transition_manifest :
      (s : ExecutionState) (a : ExecutionAttempt C D R) → (transition k s a).manifest ≡ a.manifest
  unfolding transition
  transition_manifest s a = either (is_terminal a.state)
    where
      either :
          (t : Bool)
          → (if t then a else record a {
            state = s;
            journal = a.journal ++ execution_state_changed s ∷ [];
          }).manifest
            ≡ a.manifest
      either true = refl
      either false = refl

  transit_manifest :
      (ss : List ExecutionState) (a : ExecutionAttempt C D R) → (transit ss a).manifest ≡ a.manifest
  transit_manifest [] a = refl
  transit_manifest (s ∷ ss) a = transit_manifest ss (transition k s a) ∙ transition_manifest s a

  start_manifest :
      (now : ℕ) (a b : ExecutionAttempt C D R)
      → start k now a ≡ some b
      → state_of b.manifest ≡ some queued
  unfolding start
  start_manifest now a b e = begun (is_idle a.state) e
    where
      begun :
          (t : Bool)
          → (if not t then none else some (launched k now a)) ≡ some b
          → state_of b.manifest ≡ some queued
      begun false e = cc
      begun true e = let q : launched k now a ≡ b = cc in cc q

  -- The reconciliation leaves as it is, and does not name, an attempt that was started and
  -- moved through any states without a stop request when its host was killed, since the
  -- manifest still says `queued`.
  pub killed_unseen :
      (now later : ℕ) (a b : ExecutionAttempt C D R) (ss : List ExecutionState)
      → start k now a ≡ some b
      → reconcile_interrupted_attempts later (on_disk (transit ss b) ∷ [])
        ≡ (on_disk (transit ss b) ∷ [], [])
  unfolding reconcile_interrupted_attempts
  killed_unseen now later a b ss e =
      skips later (on_disk (transit ss b)) _ []
        (rw (transit_manifest ss b, start_manifest now a b e) refl) refl
