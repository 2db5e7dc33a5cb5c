-- ===== src/Console/Accepts.antt =====
-- When `update_task_status` of `class ConsoleState` accepts.
use angelus.Prelude.{
  ◌≡◌, refl, inl, inr, Bool, true, false, ◌||◌, not, some, String, ◌==◌, arith, any, Bool-cases, ok,
  Ensures-ok,
}
use angelus.Prelude.Dict.{get}
use angelus.Console.Types.{Status, PlanItem, item, Items, leaf, child, TaskPlan, ConsoleState}
use angelus.Console.Plans.{
  parse_status, derive_status, change, change_items, store_plan, update_task_status,
}
use angelus.Console.Updates.{
  leaves_items, is_leaf_id, ChangedItems, change_items-Changed, Updated, update_task_status_lem,
}

-- Some item with subtasks has the id.
unfoldable mutual
  pub names_parent : String → PlanItem → Bool
  names_parent id (item i leaf) = false
  names_parent id (item i (child t ts)) = i.id == id || names_parent_items id (child t ts)

  pub names_parent_items : String → Items → Bool
  names_parent_items id leaf = false
  names_parent_items id (child t ts) = names_parent id t || names_parent_items id ts

module _ (id : String) (status : Status) where
  mutual
    unfolding change names_parent

    change_total :
        (t : PlanItem)
        → names_parent id t ≡ false
        → (r : PlanItem × Bool) × (change id status t ≡ ok r)
    change_total (item i leaf) h = elim (Bool-cases (i.id == id)) [
      | inl named ↦ ((item (record i { status = status }) leaf, true), rw named)
      | inr other ↦ ((derive_status (item i leaf), false), rw other)
    ]
    change_total (item i (child t ts)) h =
        let (us, e) = change_items_total (child t ts) (ground arith) in
        let other : (i.id == id) ≡ false = ground arith in
        ((derive_status (item i us.0), us.1), rw (other, e))

    change_items_total :
        (ts : Items)
        → names_parent_items id ts ≡ false
        → (r : Items × Bool) × (change_items id status ts ≡ ok r)
    change_items_total leaf h = ((leaf, false), refl)
    change_items_total (child t ts) h =
        let (u, p) = change_total t (ground arith) in
        let (us, q) = change_items_total ts (ground arith) in
        ((child u.0 us.0, u.1 || us.1), rw (p, q))

-- `update_task_status` accepts a known status for an id that names a leaf of the agent's plan
-- and no parent, and then the plan is updated as `update_task_status_lem` states.
pub update_task_status_accepts :
    (now agent id status : String) (s : ConsoleState) {state : Status} {old : TaskPlan}
    → parse_status status ≡ some state
    → get agent s.blueprint.plans ≡ some old
    → any (is_leaf_id id state) (leaves_items old.tasks) ≡ true
    → names_parent_items id old.tasks ≡ false
    → (r : ConsoleState × TaskPlan) × (update_task_status now agent id status s ≡ ok r)
      × Updated now agent id state old s r
unfolding update_task_status
update_task_status_accepts now agent id status s {state} {old} known found there plain =
    let (r, e) = change_items_total id state old.tasks plain in
    let c : ChangedItems id state old.tasks r =
      Ensures-ok (ChangedItems id state old.tasks) (change_items id state old.tasks)
        (change_items-Changed id state old.tasks) e in
    let flag : not r.1 ≡ false = ground arith in
    let plan : TaskPlan = record {
      goal = old.goal;
      summary = old.summary;
      tasks = r.0;
      updated_at = now;
    } in
    let run : update_task_status now agent id status s ≡ ok (store_plan agent plan s, plan) =
      rw (known, found, e, flag) in
    (
      (store_plan agent plan s, plan),
      run,
      Ensures-ok (Updated now agent id state old s) (update_task_status now agent id status s)
          (update_task_status_lem now agent id status s known found) run,
    )
