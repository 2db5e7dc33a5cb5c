-- ===== src/Console/Types.antt =====
-- The dataclasses of console_state.py that hold the topology and the plans, and the errors of its operations.
use angelus.Prelude.{ℕ, Option, List, String, Bool, ◌==◌, ◌&&◌}
use angelus.Prelude.Dict.{Dict}

-- `ConsoleDomainError`, by the check that raises it. `out_of_fuel` belongs to the model alone.
pub data ConsoleError : Type 0 where
  bad_name agent_exists coordinator_fixed unknown_agent : ConsoleError
  self_link connection_exists creates_cycle no_connection bad_mapper : ConsoleError
  bad_status no_plan derived_status unknown_task no_assignment not_a_leaf : ConsoleError
  out_of_fuel : ConsoleError

pub record WorkerBlueprint : Type 0 where
  pub name : String
  pub system_prompt : String
  pub role : String

pub record ConnectionBlueprint : Type 0 where
  pub source : String
  pub target : String

-- The equality of the frozen dataclass.
abbrev pub same_connection : ConnectionBlueprint → ConnectionBlueprint → Bool
same_connection a b = a.source == b.source && a.target == b.target

-- `_PLAN_STATUSES` and `_PLAN_PRIORITIES`.
pub data Status : Type 0 where
  not_started in_progress completed blocked : Status

pub data Priority : Type 0 where
  low medium high critical : Priority

pub record PlanExecution : Type 0 where
  pub assignment_ids : List String
  pub active_assignment_id : String
  pub updated_at : String

-- The fields of a `PlanItem` beside its subtasks. The estimate is a float that is only carried
-- along; a number stands for it.
pub record ItemFields : Type 0 where
  pub id : String
  pub title : String
  pub description : String
  pub status : Status
  pub priority : Priority
  pub estimated_minutes : Option ℕ
  pub execution : Option PlanExecution

mutual
  pub data PlanItem : Type 0 where
    item : ItemFields → Items → PlanItem

  pub data Items : Type 0 where
    leaf : Items
    child : PlanItem → Items → Items

pub record TaskPlan : Type 0 where
  pub goal : String
  pub summary : String
  pub tasks : Items
  pub updated_at : String

pub record ConsoleBlueprint : Type 0 where
  pub workers : Dict WorkerBlueprint
  pub connections : List ConnectionBlueprint
  pub mappers : Dict String
  pub routers : Dict (List String)
  pub plans : Dict TaskPlan

-- `saved` is the document that the last `save` left on disk.
pub record ConsoleState : Type 0 where
  pub blueprint : ConsoleBlueprint
  pub saved : ConsoleBlueprint
