-- ===== src/Console/Updates.antt =====
-- What `update_task_status` of `class ConsoleState` does to a plan.
use angelus.Prelude.{
  ◌≡◌, refl, ap, ◌∙◌, sym, inl, inr, Bool, true, false, ◌||◌, not, some, List, [], ◌∷◌, ◌++◌, map,
  String, ◌==◌, arith, if◌then◌else◌, any, Bool-cases, ok, Ensures, Ensures-bind,
}
use angelus.Prelude.Dict.{get, get-put}
use angelus.Console.Types.{
  Status, not_started, ItemFields, PlanItem, item, Items, leaf, child, TaskPlan, ConsoleState,
}
use angelus.Console.Topology.{save}
use angelus.Console.Plans.{
  parse_status, aggregate, statuses, derive_status, derive_items, change_leaf, change, change_items,
  store_plan, update_task_status,
}

-- The leaves below an item, each with its status, from left to right.
unfoldable mutual
  pub leaves : PlanItem → List (String × Status)
  leaves (item i leaf) = (i.id, i.status) ∷ []
  leaves (item i (child t ts)) = leaves t ++ leaves_items ts

  pub leaves_items : Items → List (String × Status)
  leaves_items leaf = []
  leaves_items (child t ts) = leaves t ++ leaves_items ts

-- The tree with all statuses left out: ids, titles, executions and the shape.
unfoldable mutual
  pub without_status : PlanItem → PlanItem
  without_status (item i ts) = item (record i { status = not_started }) (without_status_items ts)

  pub without_status_items : Items → Items
  without_status_items leaf = leaf
  without_status_items (child t ts) = child (without_status t) (without_status_items ts)

-- Each parent has the aggregate status of its children.
abbrev mutual
  pub IsDerived : PlanItem → Type 0
  IsDerived (item i leaf) = Unit
  IsDerived (item i (child t ts)) =
      (i.status ≡ aggregate (statuses (child t ts))) × IsDerived t × IsDerivedItems ts

  pub IsDerivedItems : Items → Type 0
  IsDerivedItems leaf = Unit
  IsDerivedItems (child t ts) = IsDerived t × IsDerivedItems ts

mutual
  unfolding derive_status

  derive_status-IsDerived : (t : PlanItem) → IsDerived (derive_status t)
  derive_status-IsDerived (item i leaf) = tt
  derive_status-IsDerived (item i (child t ts)) =
      (refl, derive_status-IsDerived t, derive_items-IsDerived ts)

  derive_items-IsDerived : (ts : Items) → IsDerivedItems (derive_items ts)
  derive_items-IsDerived leaf = tt
  derive_items-IsDerived (child t ts) = (derive_status-IsDerived t, derive_items-IsDerived ts)

mutual
  unfolding derive_status leaves

  leaves-derive : (t : PlanItem) → leaves (derive_status t) ≡ leaves t
  leaves-derive (item i leaf) = refl
  leaves-derive (item i (child t ts)) = rw (leaves-derive t, leaves-derive_items ts)

  leaves-derive_items : (ts : Items) → leaves_items (derive_items ts) ≡ leaves_items ts
  leaves-derive_items leaf = refl
  leaves-derive_items (child t ts) = rw (leaves-derive t, leaves-derive_items ts)

mutual
  unfolding derive_status without_status

  without_status-derive : (t : PlanItem) → without_status (derive_status t) ≡ without_status t
  without_status-derive (item i leaf) = refl
  without_status-derive (item i (child t ts)) =
      rw (without_status-derive t, without_status-derive_items ts)

  without_status-derive_items :
      (ts : Items) → without_status_items (derive_items ts) ≡ without_status_items ts
  without_status-derive_items leaf = refl
  without_status-derive_items (child t ts) =
      rw (without_status-derive t, without_status-derive_items ts)

abbrev has_items : Items → Bool
has_items leaf = false
has_items (child _ _) = true

leaves-parent :
    (i : ItemFields) (ts : Items) → has_items ts ≡ true → leaves (item i ts) ≡ leaves_items ts
unfolding leaves
leaves-parent i leaf h = cc
leaves-parent i (child t ts) h = refl

map-append_leaves :
    (f : String × Status → String × Status) (xs ys : List (String × Status))
    → map f (xs ++ ys) ≡ map f xs ++ map f ys
map-append_leaves f [] ys = refl
map-append_leaves f (x ∷ xs) ys = rw (map-append_leaves f xs ys)

any-append_leaves :
    (p : String × Status → Bool) (xs ys : List (String × Status))
    → any p (xs ++ ys) ≡ (any p xs || any p ys)
any-append_leaves p [] ys = refl
any-append_leaves p (x ∷ xs) ys = ground (arith, any-append_leaves p xs ys)

module _ (id : String) (status : Status) where
  -- The leaf of that id takes the status; every other leaf is as before.
  abbrev pub set_leaf : String × Status → String × Status
  set_leaf (j, s) = (j, if j == id then status else s)

  abbrev pub is_leaf_id : String × Status → Bool
  is_leaf_id (j, _) = j == id

  abbrev Changed : PlanItem → PlanItem × Bool → Type 0
  Changed t (u, found) =
      (leaves u ≡ map set_leaf (leaves t))
      × (found ≡ any is_leaf_id (leaves t))
      × IsDerived u
      × (without_status u ≡ without_status t)

  abbrev pub ChangedItems : Items → Items × Bool → Type 0
  ChangedItems ts (us, found) =
      (leaves_items us ≡ map set_leaf (leaves_items ts))
      × (found ≡ any is_leaf_id (leaves_items ts))
      × IsDerivedItems us
      × (has_items us ≡ has_items ts)
      × (without_status_items us ≡ without_status_items ts)

  derived_parent :
      (i : ItemFields) (ts : Items) (r : Items × Bool)
      → (i.id == id) ≡ false
      → ChangedItems ts r
      → Changed (item i ts) (derive_status (item i r.0), r.1)
  unfolding leaves derive_status without_status
  derived_parent i leaf (leaf, f) other c = (rw other, rw other (c.1), tt, refl)
  derived_parent i leaf (child u us, f) other c = cc (c.3)
  derived_parent i (child t ts) (leaf, f) other c = cc (c.3)
  derived_parent i (child t ts) (child u us, f) other c = (
    leaves-derive (item i (child u us)) ∙ c.0,
    c.1,
    derive_status-IsDerived (item i (child u us)),
    without_status-derive (item i (child u us)) ∙ ap (item (record i { status = not_started })) c.4,
  )

  named_item :
      (i : ItemFields) (ts : Items)
      → (i.id == id) ≡ true
      → Ensures (Changed (item i ts)) (change_leaf id status i ts)
  unfolding leaves without_status
  named_item i leaf named = (rw named, rw named, tt, refl)
  named_item i (child t ts) named = tt

  mutual
    unfolding change leaves without_status

    change-Changed : (t : PlanItem) → Ensures (Changed t) (change id status t)
    change-Changed (item i ts) = elim (Bool-cases (i.id == id)) [
      | inl named ↦ rw named (named_item i ts named)
      | inr other ↦ rw other (
          Ensures-bind (ChangedItems ts) (Changed (item i ts)) (change_items id status ts)
            (λ r. ok (derive_status (item i r.0), r.1)) (change_items-Changed ts)
            (λ r. derived_parent i ts r other))
    ]

    pub change_items-Changed : (ts : Items) → Ensures (ChangedItems ts) (change_items id status ts)
    change_items-Changed leaf = (refl, refl, tt, refl, refl)
    change_items-Changed (child t ts) =
        Ensures-bind (Changed t) (ChangedItems (child t ts)) (change id status t) _
          (change-Changed t)
          λ r h.
            Ensures-bind (ChangedItems ts) (ChangedItems (child t ts)) (change_items id status ts) _
              (change_items-Changed ts)
              λ q k. (
                rw (h.0, k.0) (sym (map-append_leaves set_leaf (leaves t) (leaves_items ts))),
                rw (h.1, k.1) (sym (any-append_leaves is_leaf_id (leaves t) (leaves_items ts))),
                (h.2, k.2),
                refl,
                rw (h.3, k.4),
              )

-- What an accepted update leaves behind, `old` being the plan before it.
abbrev pub Updated :
    String → String → String → Status → TaskPlan → ConsoleState → ConsoleState × TaskPlan → Type 0
Updated now agent id status old s (t, plan) =
    (any (is_leaf_id id status) (leaves_items old.tasks) ≡ true)
    × (leaves_items plan.tasks ≡ map (set_leaf id status) (leaves_items old.tasks))
    × IsDerivedItems plan.tasks
    × ((j : String)
        → get j t.blueprint.plans ≡ (if agent == j then some plan else get j s.blueprint.plans))
    × (t.saved ≡ t.blueprint)
    × (without_status_items plan.tasks ≡ without_status_items old.tasks)
    × (plan ≡ record old { tasks = plan.tasks; updated_at = now })
    × (t.blueprint ≡ record s.blueprint { plans = t.blueprint.plans })

-- An accepted `update_task_status` names a leaf of the agent's plan, gives each leaf of that id
-- the status and keeps the status of every other leaf; every parent has the aggregate status of
-- its children; all else in the plan, namely the goal, the summary, and the shape of the tree
-- with every item's fields beside the status, is as before, but for the plan's time; and only
-- that agent's plan is replaced, the rest of the blueprint stays, and the change is saved.
pub update_task_status_lem :
    (now agent id status : String) (s : ConsoleState) {state : Status} {old : TaskPlan}
    → parse_status status ≡ some state
    → get agent s.blueprint.plans ≡ some old
    → Ensures (Updated now agent id state old s) (update_task_status now agent id status s)
unfolding update_task_status store_plan save
update_task_status_lem now agent id status s {state} {old} known found =
    rw (known, found)
      (Ensures-bind (ChangedItems id state old.tasks) (Updated now agent id state old s)
        (change_items id state old.tasks) _ (change_items-Changed id state old.tasks)
        λ r c. elim (Bool-cases (not r.1)) [
          | inl missing ↦ rw missing tt
          | inr there ↦ rw there (
            sym c.1 ∙ ground arith,
            c.0,
            c.2,
            (λ j. get-put j agent _ s.blueprint.plans),
            refl,
            c.4,
            refl,
            refl,
          )
        ])
