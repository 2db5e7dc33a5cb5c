-- ===== src/Console/Bindings.antt =====
-- `bind_execution` and `update_assignment_status` of `class ConsoleState`: the link between a plan
-- leaf and the TaskBus assignments that work on it.
use angelus.Prelude.{
  Bool, true, false, ◌||◌, Option, none, some, List, [], ◌∷◌, ◌++◌, String, ◌==◌, if◌then◌else◌,
  is_some, unique, Result, ok, err, ◌>>=◌, ◌>>◌, raise_if, is_blank,
}
use angelus.Prelude.Dict.{Dict}
use angelus.Console.Types.{
  ConsoleError, bad_status, unknown_task, no_assignment, not_a_leaf, Status, in_progress,
  PlanExecution, ItemFields, PlanItem, item, Items, leaf, child, TaskPlan, ConsoleState,
}
use angelus.Console.Plans.{parse_status, derive_status, find_task, store_plan, or_raise}

abbrev pub ids_of : Option PlanExecution → List String
ids_of none = []
ids_of (some e) = e.assignment_ids

-- The closure `bind`.
module _ (now task_id assignment_id : String) where
  abbrev pub bound : ItemFields → ItemFields
  bound i = record i {
    status = in_progress;
    execution = some (record {
      assignment_ids = unique (ids_of i.execution ++ assignment_id ∷ []);
      active_assignment_id = assignment_id;
      updated_at = now;
    });
  }

  abbrev pub bind_leaf : ItemFields → Items → Result ConsoleError PlanItem
  bind_leaf i leaf = ok (item (bound i) leaf)
  bind_leaf i (child _ _) = err not_a_leaf

  unfoldable mutual
    pub bind : PlanItem → Result ConsoleError PlanItem
    bind (item i ts) =
        if i.id == task_id
        then bind_leaf i ts
        else bind_items ts >>= λ us. ok (derive_status (item i us))

    pub bind_items : Items → Result ConsoleError Items
    bind_items leaf = ok leaf
    bind_items (child t ts) = bind t >>= λ u. bind_items ts >>= λ us. ok (child u us)

-- The first owner whose plan holds the task, with that plan.
unfoldable pub find_owner : String → Dict TaskPlan → Option (String × TaskPlan)
find_owner task_id [] = none
find_owner task_id ((name, plan) ∷ plans) =
    if is_some (find_task plan.tasks task_id) then some (name, plan) else find_owner task_id plans

unfoldable pub bind_execution :
    String → String → String → ConsoleState → Result ConsoleError ConsoleState
bind_execution now task_id assignment_id s = do
  raise_if (is_blank assignment_id) no_assignment
  owner ← or_raise (find_owner task_id s.blueprint.plans) unknown_task
  tasks ← bind_items now task_id assignment_id (owner.1).tasks
  ok (
      store_plan owner.0
        (record {
          goal = (owner.1).goal;
          summary = (owner.1).summary;
          tasks = tasks;
          updated_at = now;
        })
        s)

abbrev pub has_assignment : String → Option PlanExecution → Bool
has_assignment assignment_id none = false
has_assignment assignment_id (some e) = e.active_assignment_id == assignment_id

abbrev pub touched : String → Option PlanExecution → Option PlanExecution
touched now none = none
touched now (some e) = some (record e { updated_at = now })

-- The closure `update`, with the flag `changed` as a second result.
module _ (now assignment_id : String) (status : Status) where
  unfoldable mutual
    pub report : PlanItem → PlanItem × Bool
    report (item i ts) =
        if has_assignment assignment_id i.execution
        then (item (record i { status = status; execution = touched now i.execution }) ts, true)
        else (derive_status (item i (report_items ts).0), (report_items ts).1)

    pub report_items : Items → Items × Bool
    report_items leaf = (leaf, false)
    report_items (child t ts) =
        (child (report t).0 (report_items ts).0, (report t).1 || (report_items ts).1)

  -- The loop over the plans: the first one that changes is stored, and the loop ends.
  unfoldable pub report_plans : Dict TaskPlan → ConsoleState → ConsoleState
  report_plans [] s = s
  report_plans ((owner, plan) ∷ plans) s =
      let (tasks, changed) = report_items plan.tasks in
      if changed
      then store_plan owner
          (record { goal = plan.goal; summary = plan.summary; tasks = tasks; updated_at = now }) s
      else report_plans plans s

unfoldable pub update_assignment_status :
    String → String → String → ConsoleState → Result ConsoleError ConsoleState
update_assignment_status now assignment_id status s = do
  state ← or_raise (parse_status status) bad_status
  ok (report_plans now assignment_id state s.blueprint.plans s)
