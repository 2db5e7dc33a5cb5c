-- ===== src/Console/Leaves.antt =====
-- What the derived statuses mean, and what an update of a task does to the leaves of a plan.
use angelus.Prelude.{
  ◌≡◌, refl, ◌∙◌, Bool, true, false, ◌&&◌, ◌||◌, List, [], ◌∷◌, ◌++◌, arith, all, any,
}
use angelus.Console.Types.{Status, PlanItem, item, Items, leaf, child}
use angelus.Console.Plans.{
  is_completed, is_blocked, is_not_started, aggregate, status_of, statuses, derive_status,
  derive_items,
}

-- The statuses of the leaves below an item, from left to right.
mutual
  pub leaf_statuses : PlanItem → List Status
  leaf_statuses (item i leaf) = i.status ∷ []
  leaf_statuses (item i (child t ts)) = leaf_statuses t ++ leaf_statuses_items ts

  pub leaf_statuses_items : Items → List Status
  leaf_statuses_items leaf = []
  leaf_statuses_items (child t ts) = leaf_statuses t ++ leaf_statuses_items ts

all-append : (p : Status → Bool) (xs ys : List Status) → all p (xs ++ ys) ≡ (all p xs && all p ys)
all-append p [] ys = refl
all-append p (x ∷ xs) ys = ground (arith, all-append p xs ys)

any-append : (p : Status → Bool) (xs ys : List Status) → any p (xs ++ ys) ≡ (any p xs || any p ys)
any-append p [] ys = refl
any-append p (x ∷ xs) ys = ground (arith, any-append p xs ys)

-- A non-empty list of statuses is summed up by its aggregate.
abbrev SumsUp : Status → List Status → Type 0
SumsUp s ss =
    (is_completed s ≡ all is_completed ss)
    × (is_blocked s ≡ any is_blocked ss)
    × (is_not_started s ≡ all is_not_started ss)

no_blocked_if_completed :
    (ss : List Status) → all is_completed ss ≡ true → any is_blocked ss ≡ false
no_blocked_if_completed [] h = refl
no_blocked_if_completed (s ∷ ss) h = ground (arith, no_blocked_if_completed ss)

no_blocked_if_not_started :
    (ss : List Status) → all is_not_started ss ≡ true → any is_blocked ss ≡ false
no_blocked_if_not_started [] h = refl
no_blocked_if_not_started (s ∷ ss) h = ground (arith, no_blocked_if_not_started ss)

aggregate-SumsUp : (s : Status) (ss : List Status) → SumsUp (aggregate (s ∷ ss)) (s ∷ ss)
unfolding aggregate
aggregate-SumsUp s ss = ground (arith, no_blocked_if_completed ss, no_blocked_if_not_started ss)

SumsUp-unique : (s t : Status) (ss : List Status) → SumsUp s ss → SumsUp t ss → s ≡ t
SumsUp-unique s t ss h k = ground arith

-- The same tests hold of two lists of statuses.
abbrev Agrees : List Status → List Status → Type 0
Agrees xs ys =
    (all is_completed xs ≡ all is_completed ys)
    × (any is_blocked xs ≡ any is_blocked ys)
    × (all is_not_started xs ≡ all is_not_started ys)

Agrees-cons :
    (s : Status) (ss xs ys : List Status) → SumsUp s xs → Agrees ss ys → Agrees (s ∷ ss) (xs ++ ys)
Agrees-cons s ss xs ys h k = ground (
  arith,
  all-append is_completed xs ys,
  any-append is_blocked xs ys,
  all-append is_not_started xs ys,
)

SumsUp-Agrees : (s : Status) (xs ys : List Status) → SumsUp s xs → Agrees xs ys → SumsUp s ys
SumsUp-Agrees s xs ys h k = (h.0 ∙ k.0, h.1 ∙ k.1, h.2 ∙ k.2)

SumsUp-one : (s : Status) → SumsUp s (s ∷ [])
SumsUp-one s = ground arith

mutual
  unfolding derive_status leaf_statuses

  derive-SumsUp : (t : PlanItem) → SumsUp (status_of (derive_status t)) (leaf_statuses t)
  derive-SumsUp (item i leaf) = SumsUp-one i.status
  derive-SumsUp (item i (child t ts)) =
      SumsUp-Agrees (aggregate (status_of (derive_status t) ∷ statuses (derive_items ts)))
        (status_of (derive_status t) ∷ statuses (derive_items ts))
        (leaf_statuses t ++ leaf_statuses_items ts)
        (aggregate-SumsUp (status_of (derive_status t)) (statuses (derive_items ts)))
        (Agrees-cons (status_of (derive_status t)) (statuses (derive_items ts)) (leaf_statuses t)
          (leaf_statuses_items ts) (derive-SumsUp t) (derive_items-Agrees ts))

  derive_items-Agrees : (ts : Items) → Agrees (statuses (derive_items ts)) (leaf_statuses_items ts)
  derive_items-Agrees leaf = (refl, refl, refl)
  derive_items-Agrees (child t ts) =
      Agrees-cons (status_of (derive_status t)) (statuses (derive_items ts)) (leaf_statuses t)
        (leaf_statuses_items ts) (derive-SumsUp t) (derive_items-Agrees ts)

nonempty_leaves : (t : PlanItem) → (s : Status) × (ss : List Status) × (leaf_statuses t ≡ s ∷ ss)
unfolding leaf_statuses
nonempty_leaves (item i leaf) = (i.status, [], refl)
nonempty_leaves (item i (child t ts)) =
    let (s, ss, e) = nonempty_leaves t in (s, ss ++ leaf_statuses_items ts, rw e)

-- The derived status of a task, however deep, is the aggregate of the statuses of its leaves
-- alone.
pub derive-eq-leaves : (t : PlanItem) → status_of (derive_status t) ≡ aggregate (leaf_statuses t)
derive-eq-leaves t =
    let (s, ss, e) = nonempty_leaves t in
    SumsUp-unique (status_of (derive_status t)) (aggregate (leaf_statuses t)) (leaf_statuses t)
      (derive-SumsUp t) (rw e (aggregate-SumsUp s ss))
