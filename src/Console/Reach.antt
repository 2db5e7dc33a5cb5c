-- ===== src/Console/Reach.antt =====
-- The cycle search of `ConsoleState.add_connection` against walks in the topology.
use angelus.Prelude.{
  ℕ, zero, suc, ◌+◌, ◌≤◌, ◌<◌, ◌≡◌, refl, subst, ◌↔◌, Bool, true, false, ◌&&◌, ◌||◌, some, List, [],
  ◌∷◌, String, ◌==◌, eq_iff, eq_refl, arith, if◌then◌else◌, length, any, mem, set_add,
  length-append, mem-set_add, get_or, Bool-cases, inl, inr,
}
use angelus.Prelude.Dict.{Dict, get, put, get-put}
use angelus.Console.Types.{ConnectionBlueprint}
use angelus.Console.Topology.{adjacency_from, extend, visit, would_cycle}

-- There is a connection from `a` to `b`.
abbrev pub linked : String → String → List ConnectionBlueprint → Bool
linked a b = any (λ e. e.source == a && e.target == b)

-- A walk along connections, perhaps of no step.
pub data Walk (es : List ConnectionBlueprint) : String → String → Type 0 where
  here : {a : String} → Walk es a a
  step : {a b c : String} → linked a b es ≡ true → Walk es b c → Walk es a c

pub Walk-snoc :
    {es : List ConnectionBlueprint} {a b c : String}
    → Walk es a b
    → linked b c es ≡ true
    → Walk es a c
Walk-snoc here l = step l here
Walk-snoc (step k w) l = step k (Walk-snoc w l)

pub join :
    {es : List ConnectionBlueprint} {a b c : String} → Walk es a b → Walk es b c → Walk es a c
join here v = v
join (step k w) v = step k (join w v)

abbrev successors : Dict (List String) → String → List String
successors d c = get_or [] (get c d)

out_degree : String → List ConnectionBlueprint → ℕ
out_degree c [] = 0
out_degree c (e ∷ es) = (if e.source == c then 1 else 0) + out_degree c es

-- The connections whose source has not been seen.
remaining : List String → List ConnectionBlueprint → ℕ
remaining seen [] = 0
remaining seen (e ∷ es) = (if mem e.source seen then 0 else 1) + remaining seen es

remaining_nil-le : (es : List ConnectionBlueprint) → remaining [] es ≤ length es
unfolding remaining
remaining_nil-le [] = omega arith
remaining_nil-le (e ∷ es) = omega (arith, remaining_nil-le es)

remaining-cons :
    (c : String) (seen : List String) (es : List ConnectionBlueprint)
    → mem c seen ≡ false
    → remaining (c ∷ seen) es + out_degree c es ≡ remaining seen es
unfolding remaining out_degree
remaining-cons c seen [] h = omega arith
remaining-cons c seen (e ∷ es) h =
    ground (arith, remaining-cons c seen es h, eq_iff e.source c, eq_iff c e.source)

length-set_add : (x : String) (xs : List String) → length (set_add x xs) ≤ length xs + 1
length-set_add x xs = ground (arith, length-append xs (x ∷ []))

length-successors :
    (c : String) (d : Dict (List String)) (es : List ConnectionBlueprint)
    → length (successors (adjacency_from d es) c) ≤ length (successors d c) + out_degree c es
unfolding adjacency_from out_degree
length-successors c d [] = omega arith
length-successors c d (e ∷ es) = ground (
  arith,
  length-successors c (put e.source (set_add e.target (successors d e.source)) d) es,
  get-put c e.source (set_add e.target (successors d e.source)) d,
  length-set_add e.target (successors d e.source),
  eq_iff e.source c,
)

mem-successors :
    (c t : String) (d : Dict (List String)) (es : List ConnectionBlueprint)
    → mem t (successors (adjacency_from d es) c) ≡ (mem t (successors d c) || linked c t es)
unfolding adjacency_from
mem-successors c t d [] = ground arith
mem-successors c t d (e ∷ es) = ground (
  arith,
  mem-successors c t (put e.source (set_add e.target (successors d e.source)) d) es,
  get-put c e.source (set_add e.target (successors d e.source)) d,
  mem-set_add t e.target (successors d e.source),
  eq_iff e.source c,
)

length-extend : (ts st : List String) → length (extend ts st) ≡ length ts + length st
unfolding extend
length-extend [] st = omega arith
length-extend (t ∷ ts) st = omega (arith, length-extend ts (t ∷ st))

mem-extend : (x : String) (ts st : List String) → mem x (extend ts st) ≡ (mem x ts || mem x st)
unfolding extend
mem-extend x [] st = refl
mem-extend x (t ∷ ts) st = ground (arith, mem-extend x ts (t ∷ st))

module _ (es : List ConnectionBlueprint) (source : String) where
  abbrev next_stack : String → List String → List String → List String
  next_stack c stack seen =
      if mem c seen then stack else extend (successors (adjacency_from [] es) c) stack

  abbrev next_seen : String → List String → List String
  next_seen c seen = if mem c seen then seen else c ∷ seen

  -- A node that is met for the first time puts its successors on the stack.
  mem-next_stack :
      (x c : String) (stack seen : List String)
      → mem c seen ≡ false
      → mem x (next_stack c stack seen) ≡ (linked c x es || mem x stack)
  mem-next_stack x c stack seen new = rw new (
      rw (mem-extend x (successors (adjacency_from [] es) c) stack) (rw (mem-successors c x [] es)))

  -- A round lowers the stack's length plus the connections still to be followed.
  round_decreases :
      (c : String) (stack seen : List String)
      → length (next_stack c stack seen) + remaining (next_seen c seen) es
        < length (c ∷ stack) + remaining seen es
  round_decreases c stack seen = elim (Bool-cases (mem c seen)) [
    | inl old ↦ rw old (omega arith)
    | inr new ↦ rw new (
        omega (
          arith,
          remaining-cons c seen es new,
          length-successors c [] es,
          length-extend (successors (adjacency_from [] es) c) stack,
        ))
  ]

  visit_total :
      (fuel : ℕ) (stack seen : List String)
      → length stack + remaining seen es < fuel
      → (b : Bool) × (visit fuel (adjacency_from [] es) source stack seen ≡ some b)
  unfolding visit
  visit_total zero stack seen h = absurd (omega arith)
  visit_total (suc fuel) [] seen h = (false, refl)
  visit_total (suc fuel) (c ∷ stack) seen h = elim (Bool-cases (c == source)) [
    | inl found ↦ (true, rw found)
    | inr other ↦ rw other (
        visit_total fuel (next_stack c stack seen) (next_seen c seen)
          (omega (arith, round_decreases c stack seen)))
  ]

  module _ (target : String) where
    -- Every text of the list can be walked to from `target`.
    abbrev Reached : List String → Type 0
    Reached xs = (x : String) → mem x xs ≡ true → Walk es target x

    extend_Reached :
        (c : String) (stack seen : List String)
        → Reached (c ∷ stack)
        → Reached (next_stack c stack seen)
    extend_Reached c stack seen h x m = elim (Bool-cases (mem c seen)) [
      | inl old ↦ h x (ground arith)
      | inr new ↦ elim (Bool-cases (linked c x es)) [
        | inl l ↦ Walk-snoc (h c (rw (eq_refl c))) l
        | inr unlinked ↦ h x (ground (arith, mem-next_stack x c stack seen new))
      ]
    ]

    -- The search raises only where there is a walk back to the source.
    visit_sound :
        (fuel : ℕ) (stack seen : List String)
        → Reached stack
        → visit fuel (adjacency_from [] es) source stack seen ≡ some true
        → Walk es target source
    unfolding visit
    visit_sound zero stack seen h e = cc
    visit_sound (suc fuel) [] seen h e = cc
    visit_sound (suc fuel) (c ∷ stack) seen h e = elim (Bool-cases (c == source)) [
      | inl found ↦ subst (Walk es target) ((eq_iff c source).0 found) (h c (rw (eq_refl c)))
      | inr other ↦
          visit_sound fuel (next_stack c stack seen) (next_seen c seen)
            (extend_Reached c stack seen h) (rw other at e)
    ]

    -- Every connection out of a seen node ends at a node that is seen or waits on the stack.
    abbrev Closed : List String → List String → Type 0
    Closed stack seen =
        (x y : String)
        → mem x seen ≡ true
        → linked x y es ≡ true
        → (mem y seen || mem y stack) ≡ true

    next_Closed :
        (c : String) (stack seen : List String)
        → Closed (c ∷ stack) seen
        → Closed (next_stack c stack seen) (next_seen c seen)
    next_Closed c stack seen h x y m l = elim (Bool-cases (mem c seen)) [
      | inl old ↦ ground (arith, h x y, eq_iff c y, eq_iff y c)
      | inr new ↦ ground (arith, h x y, eq_iff c x, eq_iff c y, mem-next_stack y c stack seen new)
    ]

    Closed-Walk :
        (seen : List String) {x z : String}
        → Closed [] seen
        → mem x seen ≡ true
        → Walk es x z
        → mem z seen ≡ true
    Closed-Walk seen h m here = m
    Closed-Walk seen h m (step l w) = Closed-Walk seen h (ground (arith, h _ _ m l)) w

    keeps_target :
        (c : String) (stack seen : List String)
        → (mem target seen || mem target (c ∷ stack)) ≡ true
        → (mem target (next_seen c seen) || mem target (next_stack c stack seen)) ≡ true
    keeps_target c stack seen t = elim (Bool-cases (mem c seen)) [
      | inl old ↦ ground (arith, eq_iff c target)
      | inr new ↦ ground (arith, eq_iff c target, mem-next_stack target c stack seen new)
    ]

    visit_complete :
        (fuel : ℕ) (stack seen : List String)
        → Closed stack seen
        → (mem target seen || mem target stack) ≡ true
        → mem source seen ≡ false
        → visit fuel (adjacency_from [] es) source stack seen ≡ some false
        → ¬ Walk es target source
    unfolding visit
    visit_complete zero stack seen h t s e w = cc
    visit_complete (suc fuel) [] seen h t s e w = cc (s, Closed-Walk seen h (ground arith) w)
    visit_complete (suc fuel) (c ∷ stack) seen h t s e w = elim (Bool-cases (c == source)) [
      | inl found ↦ cc (rw found at e)
      | inr other ↦
          visit_complete fuel (next_stack c stack seen) (next_seen c seen)
            (next_Closed c stack seen h) (keeps_target c stack seen t)
            (ground (arith, eq_iff c source)) (rw other at e) w
    ]

-- The search always ends with an answer, and the answer is whether a walk leads from `target` to
-- `source`.
pub would_cycle_decides :
    (es : List ConnectionBlueprint) (source target : String)
    → (b : Bool) × (would_cycle es source target ≡ some b) × ((b ≡ true) ↔ Walk es target source)
unfolding would_cycle
would_cycle_decides es source target = answer (visit_total es source _ (target ∷ []) [] enough)
  where
    enough : length (target ∷ []) + remaining [] es < suc (suc (length es))
    enough = omega (arith, remaining_nil-le es)

    start : Reached es source target (target ∷ [])
    start x m = subst (Walk es target) ((eq_iff target x).0 (ground arith)) here

    answer :
        ((b : Bool) × (would_cycle es source target ≡ some b))
        → (b : Bool) × (would_cycle es source target ≡ some b)
          × ((b ≡ true) ↔ Walk es target source)
    answer (true, e) =
        (true, e, (λ _. visit_sound es source target _ (target ∷ []) [] start e, λ _. refl))
    answer (false, e) = (
      false,
      e,
      (
        λ p. cc,
        λ w. absurd (
            visit_complete es source target _ (target ∷ []) [] (λ x y m l. cc) (rw (eq_refl target))
              refl e w),
      ),
    )
