-- ===== src/Execution/Reconcile.antt =====
-- reconcile.py: what the next host does with the attempts that lie on disk.
use angelus.Prelude.{
  ℕ, Bool, true, false, ◌&&◌, not, Option, none, some, List, [], ◌∷◌, ◌++◌, String, if◌then◌else◌,
  ◌==◌,
}
use angelus.Execution.Types.{
  ExecutionState, running, stopping, force_stopping, interrupted, Fact, execution_interrupted,
  Manifest,
}

-- An attempt's directory: a manifest that does not decode is `none`.
pub record Stored : Type 0 where
  pub execution_id : String
  pub manifest : Option Manifest
  pub journal : List Fact

-- `_ACTIVE_STATES`
abbrev pub is_active : ExecutionState → Bool
is_active running = true
is_active stopping = true
is_active force_stopping = true
is_active _ = false

abbrev pub state_of : Option Manifest → Option ExecutionState
state_of none = none
state_of (some m) = m.state

abbrev pub has_active : Option ExecutionState → Bool
has_active none = false
has_active (some s) = is_active s

abbrev pub marked : ℕ → Option Manifest → Option Manifest
marked now none = none
marked now (some m) =
    some
      (record m { state = some interrupted; finished_at = some now; error = some "host_restart" })

-- Whether the loop gets as far as the journal.
abbrev pub is_left_live : Stored → Bool
is_left_live s = has_active (state_of s.manifest) && not (s.execution_id == "")

abbrev pub reconcile_one : ℕ → Stored → Stored
reconcile_one now s =
    if is_left_live s
    then record s {
      journal = s.journal ++ execution_interrupted "host_restart" ∷ [];
      manifest = marked now s.manifest;
    }
    else s

-- The directories afterwards, and the ids that were reconciled.
unfoldable pub reconcile_interrupted_attempts : ℕ → List Stored → List Stored × List String
reconcile_interrupted_attempts now [] = ([], [])
reconcile_interrupted_attempts now (s ∷ stored) =
    let (rest, ids) = reconcile_interrupted_attempts now stored in
    (reconcile_one now s ∷ rest, if is_left_live s then s.execution_id ∷ ids else ids)
