-- ===== src/Execution/Types.antt =====
-- state.py, and what an attempt takes from the library that it runs under: a controller that
-- collects stop requests.
use angelus.Prelude.{ℕ, ◌≡◌, Bool, true, false, Option, none, some, String}

-- `ExecutionState`
pub data ExecutionState : Type 0 where
  idle queued preparing materializing_tools connecting_mcp : ExecutionState
  materializing_swarm loading_context running stopping force_stopping : ExecutionState
  completed stopped interrupted failed : ExecutionState

-- `ExecutionSnapshot`
pub record ExecutionSnapshot : Type 0 where
  pub session_id : String
  pub execution_id : Option String
  pub attempt : ℕ
  pub state : ExecutionState
  pub started_at : Option ℕ
  pub finished_at : Option ℕ
  pub error : Option String

pub data StopMode : Type 0 where
  graceful force : StopMode

pub record StopRequest : Type 0 where
  pub mode : StopMode
  pub reason : String
  pub requested_at : ℕ

-- `ExecutionController` of llmfetcher: a stop request is recorded, and from then on the controller
-- says that the work should stop.
pub record Controller : Type 1 where
  pub C : Type 0
  pub fresh : C
  pub request_stop : C → StopMode → String → C × StopRequest
  pub should_stop : C → Bool
  pub stop_request : C → Option StopRequest
  pub stops :
      (c : C) (m : StopMode) (reason : String) → should_stop (request_stop c m reason).0 ≡ true

-- The states in which `request_stop` takes a request.
abbrev pub is_live : ExecutionState → Bool
is_live idle = false
is_live completed = false
is_live stopped = false
is_live interrupted = false
is_live failed = false
is_live _ = true

abbrev pub is_terminal : ExecutionState → Bool
is_terminal completed = true
is_terminal failed = true
is_terminal stopped = true
is_terminal interrupted = true
is_terminal _ = false

abbrev pub is_idle : ExecutionState → Bool
is_idle idle = true
is_idle _ = false

abbrev pub is_interrupted : ExecutionState → Bool
is_interrupted interrupted = true
is_interrupted _ = false

-- A journal record, by its event type. Identities, timestamps and free data are left out.
pub data Fact : Type 0 where
  execution_started : Fact
  execution_state_changed : ExecutionState → Fact
  stop_requested : StopRequest → Fact
  checkpoint_committed : String → Fact
  execution_interrupted : String → Fact
  execution_completed : Fact
  execution_stopped execution_failed : Option String → Fact

-- The durable manifest of an attempt. A manifest that a checkpoint creates has no state yet; the
-- checkpoint is named by its generation.
pub record Manifest : Type 0 where
  pub state : Option ExecutionState
  pub started_at : Option ℕ
  pub finished_at : Option ℕ
  pub error : Option String
  pub stop_request : Option StopRequest
  pub checkpoint : Option String

abbrev pub checkpoint_of : Option Manifest → Option String
checkpoint_of none = none
checkpoint_of (some m) = m.checkpoint

abbrev pub is_force : StopMode → Bool
is_force force = true
is_force graceful = false
