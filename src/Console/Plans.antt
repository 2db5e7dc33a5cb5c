-- ===== src/Console/Plans.antt =====
-- The task plans of `class ConsoleState`: statuses derived up the tree, and the updates of a leaf.
use angelus.Prelude.{
  Bool, true, false, ◌||◌, not, Option, none, some, List, [], ◌∷◌, String, ◌==◌, if◌then◌else◌, any,
  all, or_else, is_some, Result, ok, err, ◌>>=◌, ◌>>◌, raise_if,
}
use angelus.Prelude.Dict.{Dict, get, put}
use angelus.Console.Types.{
  ConsoleError, bad_status, no_plan, derived_status, unknown_task, Status, not_started, in_progress,
  completed, blocked, ItemFields, PlanItem, item, Items, leaf, child, TaskPlan, ConsoleState,
}
use angelus.Console.Topology.{save, commit}

abbrev pub is_completed : Status → Bool
is_completed completed = true
is_completed _ = false

abbrev pub is_blocked : Status → Bool
is_blocked blocked = true
is_blocked _ = false

abbrev pub is_not_started : Status → Bool
is_not_started not_started = true
is_not_started _ = false

-- `status in _PLAN_STATUSES`
unfoldable pub parse_status : String → Option Status
parse_status s =
    if s == "not_started"
    then some not_started
    else if s == "in_progress"
    then some in_progress
    else if s == "completed"
    then some completed
    else if s == "blocked"
    then some blocked
    else none

-- The status of a parent, from the set of its children's.
unfoldable pub aggregate : List Status → Status
aggregate states =
    if all is_completed states
    then completed
    else if any is_blocked states
    then blocked
    else if all is_not_started states
    then not_started
    else in_progress

abbrev pub status_of : PlanItem → Status
status_of (item i _) = i.status

abbrev pub statuses : Items → List Status
statuses leaf = []
statuses (child t ts) = status_of t ∷ statuses ts

-- `_derive_status`: an item without subtasks stays as it is.
unfoldable mutual
  pub derive_status : PlanItem → PlanItem
  derive_status (item i leaf) = item i leaf
  derive_status (item i (child t ts)) =
      item (record i { status = aggregate (statuses (child (derive_status t) (derive_items ts))) })
        (child (derive_status t) (derive_items ts))

  pub derive_items : Items → Items
  derive_items leaf = leaf
  derive_items (child t ts) = child (derive_status t) (derive_items ts)

-- `_find_task`
unfoldable mutual
  pub find_item : PlanItem → String → Option PlanItem
  find_item (item i ts) id = if i.id == id then some (item i ts) else find_task ts id

  pub find_task : Items → String → Option PlanItem
  find_task leaf id = none
  find_task (child t ts) id = or_else (find_item t id) (find_task ts id)

-- The closure `change` of `update_task_status`, with the flag `found` as a second result.
module _ (id : String) (status : Status) where
  abbrev pub change_leaf : ItemFields → Items → Result ConsoleError (PlanItem × Bool)
  change_leaf i leaf = ok (item (record i { status = status }) leaf, true)
  change_leaf i (child _ _) = err derived_status

  unfoldable mutual
    pub change : PlanItem → Result ConsoleError (PlanItem × Bool)
    change (item i ts) =
        if i.id == id
        then change_leaf i ts
        else change_items ts >>= λ r. ok (derive_status (item i r.0), r.1)

    pub change_items : Items → Result ConsoleError (Items × Bool)
    change_items leaf = ok (leaf, false)
    change_items (child t ts) =
        change t >>= λ r. change_items ts >>= λ q. ok (child r.0 q.0, r.1 || q.1)

-- A plan is put in its owner's place and saved.
unfoldable pub store_plan : String → TaskPlan → ConsoleState → ConsoleState
unfolding save
store_plan agent plan s = commit s (record s.blueprint { plans = put agent plan s.blueprint.plans })

abbrev pub or_raise {ℓ} : {E A : Type ℓ} → Option A → E → Result E A
or_raise none e = err e
or_raise (some a) e = ok a

unfoldable pub update_task_status :
    String → String → String → String → ConsoleState → Result ConsoleError (ConsoleState × TaskPlan)
update_task_status now agent task_id status s = do
  state ← or_raise (parse_status status) bad_status
  plan ← or_raise (get agent s.blueprint.plans) no_plan
  changed ← change_items task_id state plan.tasks
  raise_if (not changed.1) unknown_task
  let updated : TaskPlan = record {
    goal = plan.goal;
    summary = plan.summary;
    tasks = changed.0;
    updated_at = now;
  }
  ok (store_plan agent updated s, updated)

-- `has_task` and `is_bindable_leaf`, over the plans in their order.
unfoldable pub has_task : String → Dict TaskPlan → Bool
has_task id [] = false
has_task id ((_, plan) ∷ plans) = is_some (find_task plan.tasks id) || has_task id plans

abbrev pub is_leaf : Option PlanItem → Bool
is_leaf none = false
is_leaf (some (item _ leaf)) = true
is_leaf (some (item _ (child _ _))) = false

unfoldable pub is_bindable_leaf : String → Dict TaskPlan → Bool
is_bindable_leaf id [] = false
is_bindable_leaf id ((_, plan) ∷ plans) =
    is_leaf (find_task plan.tasks id) || is_bindable_leaf id plans
