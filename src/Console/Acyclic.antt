-- ===== src/Console/Acyclic.antt =====
-- Cycles in the topology: what a new connection does to the walks, and what a removal does.
use angelus.Prelude.{
  ◌≡◌, refl, sym, ◌∙◌, subst, ◌⊎◌, inl, inr, Bool, true, false, ◌&&◌, ◌||◌, not, List, [], ◌∷◌,
  ◌++◌, String, ◌==◌, eq_iff, arith, if◌then◌else◌, any, keep, Bool-cases,
}
use angelus.Console.Types.{ConnectionBlueprint, same_connection}
use angelus.Console.Topology.{touches, remove_first}
use angelus.Console.Reach.{linked, Walk, here, step, join}

-- No walk leads from the end of a connection back to its start.
abbrev pub IsAcyclic : List ConnectionBlueprint → Type 0
IsAcyclic es = (a b : String) → linked a b es ≡ true → ¬ Walk es b a

-- No connection stands twice.
abbrev pub IsDistinct : List ConnectionBlueprint → Type 0
IsDistinct [] = Unit
IsDistinct (e ∷ es) = (linked e.source e.target es ≡ false) × IsDistinct es

pub linked-append :
    (a b : String) (es : List ConnectionBlueprint) (e : ConnectionBlueprint)
    → linked a b (es ++ e ∷ []) ≡ (linked a b es || e.source == a && e.target == b)
linked-append a b [] e = ground arith
linked-append a b (f ∷ es) e = ground (arith, linked-append a b es e)

pub any-same_connection :
    (e : ConnectionBlueprint) (es : List ConnectionBlueprint)
    → any (same_connection e) es ≡ linked e.source e.target es
any-same_connection e [] = refl
any-same_connection e (f ∷ es) = ground (
  arith,
  any-same_connection e es,
  eq_iff e.source f.source,
  eq_iff f.source e.source,
  eq_iff e.target f.target,
  eq_iff f.target e.target,
)

pub append-IsDistinct :
    (es : List ConnectionBlueprint) (e : ConnectionBlueprint)
    → linked e.source e.target es ≡ false
    → IsDistinct es
    → IsDistinct (es ++ e ∷ [])
append-IsDistinct [] e n d = (refl, tt)
append-IsDistinct (f ∷ es) e n d = ground (
  arith,
  append-IsDistinct es e,
  linked-append f.source f.target es e,
  eq_iff e.source f.source,
  eq_iff f.source e.source,
  eq_iff e.target f.target,
  eq_iff f.target e.target,
)

module _ (es : List ConnectionBlueprint) (e : ConnectionBlueprint) where
  -- A walk in the larger topology avoids the new connection, or passes through it.
  split_step :
      (a b c : String)
      → linked a b (es ++ e ∷ []) ≡ true
      → Walk es b c ⊎ (Walk es b e.source × Walk es e.target c)
      → Walk es a c ⊎ (Walk es a e.source × Walk es e.target c)
  split_step a b c l r = elim (Bool-cases (linked a b es)) [
    | inl old ↦ elim r [ inl w ↦ inl (step old w) | inr (p, q) ↦ inr (step old p, q) ]
    | inr new ↦
        let at_source : e.source ≡ a =
          (eq_iff e.source a).0 (ground (arith, linked-append a b es e)) in
        let at_target : e.target ≡ b =
          (eq_iff e.target b).0 (ground (arith, linked-append a b es e)) in
        let start : Walk es a e.source = subst (Walk es a) (sym at_source) here in
        elim r [
          | inl w ↦ inr (start, subst (λ t. Walk es t c) (sym at_target) w)
          | inr (p, q) ↦ inr (start, q)
        ]
  ]

  split-Walk :
      {a c : String}
      → Walk (es ++ e ∷ []) a c
      → Walk es a c ⊎ (Walk es a e.source × Walk es e.target c)
  split-Walk here = inl here
  split-Walk (step l w) = split_step _ _ _ l (split-Walk w)

  -- A connection whose end does not lead back to its start closes no cycle.
  pub append-IsAcyclic :
      IsAcyclic es
      → (e.source == e.target) ≡ false
      → ¬ Walk es e.target e.source
      → IsAcyclic (es ++ e ∷ [])
  append-IsAcyclic acyclic loop open_end a b l w = elim (Bool-cases (linked a b es)) [
    | inl old ↦ elim (split-Walk w) [
      | inl u ↦ acyclic a b old u
      | inr (p, q) ↦ open_end (join q (step old p))
    ]
    | inr new ↦
        let at_source : e.source ≡ a =
          (eq_iff e.source a).0 (ground (arith, linked-append a b es e)) in
        let at_target : e.target ≡ b =
          (eq_iff e.target b).0 (ground (arith, linked-append a b es e)) in
        elim (split-Walk w) [
          | inl u ↦ open_end (
              subst (Walk es e.target) (sym at_source) (subst (λ t. Walk es t a) (sym at_target) u))
          | inr (p, q) ↦ open_end (subst (λ t. Walk es t e.source) (sym at_target) p)
        ]
  ]

-- With fewer connections there are fewer walks.
module _ {es fs : List ConnectionBlueprint}
    (less : (a b : String) → linked a b es ≡ true → linked a b fs ≡ true) where
  fewer_walks : {a b : String} → Walk es a b → Walk fs a b
  fewer_walks here = here
  fewer_walks (step l w) = step (less _ _ l) (fewer_walks w)

  pub fewer-IsAcyclic : IsAcyclic fs → IsAcyclic es
  fewer-IsAcyclic acyclic a b l w = acyclic a b (less a b l) (fewer_walks w)

touches_at :
    (n a b : String) (e : ConnectionBlueprint)
    → (e.source == a && e.target == b) ≡ true
    → touches n e ≡ (a == n || b == n)
touches_at n a b e h =
    let p : e.source ≡ a = (eq_iff e.source a).0 (ground arith) in
    let q : e.target ≡ b = (eq_iff e.target b).0 (ground arith) in λ i. p i == n || q i == n

-- How a test of two parts changes when an element that fails the second part is filtered out.
filtered :
    (hit touched bad rest : Bool)
    → (hit ≡ true → touched ≡ bad)
    → (if not touched then hit || rest && not bad else rest && not bad) ≡ ((hit || rest) && not bad)
filtered true true bad rest h = rw (← h refl) (ground arith)
filtered true false bad rest h = rw (← h refl) (ground arith)
filtered false true bad rest h = refl
filtered false false bad rest h = refl

linked-if :
    (a b : String) (e : ConnectionBlueprint) (t : Bool) (es : List ConnectionBlueprint)
    → linked a b (if t then e ∷ es else es)
      ≡ (if t then (e.source == a && e.target == b) || linked a b es else linked a b es)
linked-if a b e true es = refl
linked-if a b e false es = refl

pub linked-keep :
    (n a b : String) (es : List ConnectionBlueprint)
    → linked a b (keep (λ e. not (touches n e)) es) ≡ (linked a b es && not (a == n || b == n))
linked-keep n a b [] = refl
linked-keep n a b (e ∷ es) =
    linked-if a b e (not (touches n e)) (keep (λ f. not (touches n f)) es)
    ∙ rw (linked-keep n a b es) (
        filtered (e.source == a && e.target == b) (touches n e) (a == n || b == n) (linked a b es)
          (touches_at n a b e))

pub keep-IsDistinct :
    (n : String) (es : List ConnectionBlueprint)
    → IsDistinct es
    → IsDistinct (keep (λ e. not (touches n e)) es)
keep-IsDistinct n [] d = tt
keep-IsDistinct n (e ∷ es) d =
    ground (arith, keep-IsDistinct n es d.1, linked-keep n e.source e.target es)

-- `list.remove` takes one connection out of a list without duplicates, and no other.
pub linked-remove_first :
    (e : ConnectionBlueprint) (a b : String) (es : List ConnectionBlueprint)
    → IsDistinct es
    → linked a b (remove_first e es) ≡ (linked a b es && not (e.source == a && e.target == b))
unfolding remove_first
linked-remove_first e a b [] d = refl
linked-remove_first e a b (f ∷ es) d = ground (
  arith,
  linked-remove_first e a b es d.1,
  eq_iff e.source f.source,
  eq_iff e.target f.target,
  eq_iff e.source a,
  eq_iff f.source a,
  eq_iff e.target b,
  eq_iff f.target b,
  d.0,
)

pub remove_first-IsDistinct :
    (e : ConnectionBlueprint) (es : List ConnectionBlueprint)
    → IsDistinct es
    → IsDistinct (remove_first e es)
unfolding remove_first
remove_first-IsDistinct e [] d = tt
remove_first-IsDistinct e (f ∷ es) d =
    ground (arith, remove_first-IsDistinct e es d.1, linked-remove_first e f.source f.target es d.1)
