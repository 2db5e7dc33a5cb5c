-- ===== src/Console/Tests.antt =====
-- A small Session's console state, and the theorems on it applied to it.
use angelus.Prelude.{◌≡◌, refl, true, none, some, List, [], ◌∷◌, String, ok, Ensures}
use angelus.Console.Types.{
  ConnectionBlueprint, Status, not_started, in_progress, completed, Priority, ItemFields, PlanItem,
  item, leaf, child, TaskPlan, ConsoleBlueprint, ConsoleState,
}
use angelus.Console.Topology.{would_cycle, adjacency_from, extend, visit}
use angelus.Console.Integrity.{IsSound, IsForgotten, remove_worker_forgets}
use angelus.Console.Connections.{Verdict, add_connection-Verdict}
use angelus.Console.Sessions.{Request, serve, fresh, fresh-IsSound, serve-IsSound}
use angelus.Console.Topology
use angelus.Console.Plans.{parse_status, aggregate, status_of, derive_status, update_task_status}
use angelus.Console.Leaves.{leaf_statuses, derive-eq-leaves}
use angelus.Console.Updates.{leaves, Updated, update_task_status_lem}
use angelus.Console.Accepts.{names_parent, update_task_status_accepts}

abbrev edges : List ConnectionBlueprint
edges =
    record { source = "coordinator"; target = "reader" }
    ∷ record { source = "reader"; target = "writer" }
    ∷ []

abbrev requests : List Request
requests =
    Request.add_worker "reader" "Read."
    ∷ Request.add_worker "writer" "Write."
    ∷ Request.add_connection "coordinator" "reader"
    ∷ Request.add_connection "reader" "writer"
    ∷ Request.add_connection "writer" "coordinator"
    ∷ Request.router "coordinator" ("reader" ∷ "writer" ∷ [])
    ∷ Request.remove_worker "writer"
    ∷ []

serve-IsSound_example : IsSound (serve requests fresh)
serve-IsSound_example = serve-IsSound requests fresh fresh-IsSound

abbrev team : ConsoleState
team = serve (Request.add_worker "reader" "Read." ∷ []) fresh

add_connection-Verdict_example :
    Verdict "coordinator" "reader" team (Topology.add_connection "coordinator" "reader" team)
add_connection-Verdict_example = add_connection-Verdict "coordinator" "reader" team

-- The edge from the writer back to the coordinator would close a cycle.
would_cycle_run : would_cycle edges "writer" "coordinator" ≡ some true
unfolding would_cycle adjacency_from extend visit
would_cycle_run = refl

remove_worker_forgets_example :
    Ensures (λ t. IsForgotten "reader" t.blueprint) (Topology.remove_worker "reader" team)
remove_worker_forgets_example = remove_worker_forgets "reader" team

abbrev fields : String → Status → ItemFields
fields id status = record {
  id = id;
  title = id;
  description = "";
  status = status;
  priority = Priority.medium;
  estimated_minutes = none;
  execution = none;
}

abbrev task : PlanItem
task = item (fields "report" not_started) (
    child (item (fields "draft" completed) leaf)
      (child (item (fields "review" not_started) leaf) leaf))

derive-eq-leaves_example : status_of (derive_status task) ≡ aggregate (leaf_statuses task)
derive-eq-leaves_example = derive-eq-leaves task

-- One leaf of two is done: the task is in progress.
derive_run : status_of (derive_status task) ≡ in_progress
unfolding derive_status aggregate
derive_run = refl

abbrev plan : TaskPlan
plan = record { goal = "Report"; summary = ""; tasks = child task leaf; updated_at = "t0" }

abbrev planned : ConsoleState
planned =
    let b : ConsoleBlueprint = record {
      workers = [];
      connections = [];
      mappers = [];
      routers = [];
      plans = ("coordinator", plan) ∷ [];
    } in
    record { blueprint = b; saved = b }

update_task_status_lem_example :
    Ensures
      (Updated "t1" "coordinator" "review" completed plan planned)
      (update_task_status "t1" "coordinator" "review" "completed" planned)
unfolding parse_status
update_task_status_lem_example =
    update_task_status_lem "t1" "coordinator" "review" "completed" planned refl refl

update_task_status_accepts_example :
    (r : ConsoleState × TaskPlan) × (update_task_status "t1" "coordinator" "review" "completed"
        planned
      ≡ ok r)
    × Updated "t1" "coordinator" "review" completed plan planned r
unfolding parse_status leaves names_parent
update_task_status_accepts_example =
    update_task_status_accepts "t1" "coordinator" "review" "completed" planned refl refl refl refl
