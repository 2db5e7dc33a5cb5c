-- ===== src/Console/Connections.antt =====
-- The operations of `class ConsoleState` on connections, mappers and routers, against the invariant
-- of the topology, and the verdict of `add_connection`.
use angelus.Prelude.{
  ◌≡◌, refl, sym, ◌∙◌, subst, ◌↔◌, ◌⊎◌, ◌≢◌, inl, inr, Bool, true, false, ◌&&◌, ◌||◌, not, some,
  List, [], ◌∷◌, ◌++◌, String, ◌==◌, eq_iff, arith, any, mem, unique, mem-unique_from, Bool-cases,
  Result, ok, err, Ensures,
}
use angelus.Prelude.Dict.{put, get-put, contains-put}
use angelus.Console.Types.{
  ConsoleError, unknown_agent, self_link, connection_exists, creates_cycle, out_of_fuel,
  ConnectionBlueprint, same_connection, ConsoleBlueprint, ConsoleState,
}
use angelus.Console.Topology.{
  is_node, would_cycle, add_connection, remove_first, remove_connection, mapper, router,
}
use angelus.Console.Reach.{linked, Walk, would_cycle_decides}
use angelus.Console.Acyclic.{
  linked-append, any-same_connection, append-IsDistinct, append-IsAcyclic, fewer-IsAcyclic,
  linked-remove_first, remove_first-IsDistinct,
}
use angelus.Console.Integrity.{IsValid, IsSound}

append-IsValid :
    (e : ConnectionBlueprint) (b : ConsoleBlueprint)
    → IsValid b
    → (is_node b e.source && is_node b e.target) ≡ true
    → (e.source == e.target) ≡ false
    → linked e.source e.target b.connections ≡ false
    → ¬ Walk b.connections e.target e.source
    → IsValid (record b { connections = b.connections ++ e ∷ [] })
append-IsValid e b v known loop new open_end = record {
  acyclic = append-IsAcyclic b.connections e v.acyclic loop open_end;
  distinct = append-IsDistinct b.connections e new v.distinct;
  ends = λ x y l. elim (Bool-cases (linked x y b.connections)) [
    | inl old ↦ v.ends x y old
    | inr added ↦
        let p : e.source ≡ x =
          (eq_iff e.source x).0 (ground (arith, linked-append x y b.connections e)) in
        let q : e.target ≡ y =
          (eq_iff e.target y).0 (ground (arith, linked-append x y b.connections e)) in
        subst (λ t. (is_node b t && is_node b y) ≡ true) p
          (subst (λ t. (is_node b e.source && is_node b t) ≡ true) q known)
  ];
  mapped = v.mapped;
  routed = v.routed;
  targets = v.targets;
  named = v.named;
}

-- What `add_connection` asks of a new connection.
abbrev pub IsAddable : String → String → ConsoleBlueprint → Type 0
IsAddable source target b =
    ((is_node b source && is_node b target) ≡ true)
    × ((source == target) ≡ false)
    × (linked source target b.connections ≡ false)
    × (¬ Walk b.connections target source)

-- The state after an accepted connection.
abbrev pub connected : String → String → ConsoleState → ConsoleState
connected source target s =
    let b : ConsoleBlueprint = record s.blueprint {
      connections = s.blueprint.connections ++ record { source = source; target = target } ∷ [];
    } in
    record { blueprint = b; saved = b }

abbrev pub Verdict : String → String → ConsoleState → Result ConsoleError ConsoleState → Type 0
Verdict source target s r =
    (IsAddable source target s.blueprint × (r ≡ ok (connected source target s)))
    ⊎ ((¬ IsAddable source target s.blueprint)
        × ((e : ConsoleError) × (r ≡ err e) × (e ≢ out_of_fuel)))

-- `add_connection` accepts a connection exactly if both ends are nodes, they differ, it is new
-- and no walk leads back from its target to its source; then it is appended and saved,
-- otherwise an error is raised; the search for a cycle never runs out of fuel.
pub add_connection-Verdict :
    (source target : String) (s : ConsoleState)
    → Verdict source target s (add_connection source target s)
unfolding add_connection
add_connection-Verdict source target s =
    elim (Bool-cases (not (is_node s.blueprint source) || not (is_node s.blueprint target))) [
      | inl unknown ↦ inr (λ h. ground (arith, h.0), (unknown_agent, rw unknown, λ p. cc))
      | inr known ↦ elim (Bool-cases (source == target)) [
        | inl loop ↦ inr (λ h. cc (h.1), (self_link, rw (known, loop), λ p. cc))
        | inr ends ↦ elim (Bool-cases (any (same_connection edge) s.blueprint.connections)) [
          | inl old ↦ inr (
            λ h. ground (arith, h.2, any-same_connection edge s.blueprint.connections),
            (connection_exists, rw (known, ends, old), λ p. cc),
          )
          | inr new ↦
              search_verdict known ends new
                (would_cycle_decides s.blueprint.connections source target)
        ]
      ]
    ]
  where
    edge : ConnectionBlueprint
    edge = record { source = source; target = target }

    search_verdict :
        (not (is_node s.blueprint source) || not (is_node s.blueprint target)) ≡ false
        → (source == target) ≡ false
        → any (same_connection edge) s.blueprint.connections ≡ false
        → ((b : Bool) × (would_cycle s.blueprint.connections source target ≡ some b)
            × ((b ≡ true) ↔ Walk s.blueprint.connections target source))
        → Verdict source target s (add_connection source target s)
    search_verdict known ends new (true, e, iff) =
        inr (λ h. h.3 (iff.0 refl), (creates_cycle, rw (known, ends, new, e), λ p. cc))
    search_verdict known ends new (false, e, iff) = inl (
      (
        ground arith,
        ends,
        ground (arith, any-same_connection edge s.blueprint.connections),
        λ w. cc (iff.1 w),
      ),
      rw (known, ends, new, e),
    )

pub add_connection-IsSound :
    (source target : String) (s : ConsoleState)
    → IsSound s
    → Ensures IsSound (add_connection source target s)
add_connection-IsSound source target s (v, _) = elim (add_connection-Verdict source target s) [
  | inl (a, e) ↦ rw e (
    append-IsValid (record { source = source; target = target }) s.blueprint v a.0 a.1 a.2 a.3,
    refl,
  )
  | inr (_, (err_kind, e, _)) ↦ rw e tt
]

remove_first-IsValid :
    (e : ConnectionBlueprint) (b : ConsoleBlueprint)
    → IsValid b
    → IsValid (record b { connections = remove_first e b.connections })
remove_first-IsValid e b v = record {
  acyclic =
      fewer-IsAcyclic (λ x y l. ground (arith, linked-remove_first e x y b.connections v.distinct))
        v.acyclic;
  distinct = remove_first-IsDistinct e b.connections v.distinct;
  ends = λ x y l. v.ends x y (ground (arith, linked-remove_first e x y b.connections v.distinct));
  mapped = v.mapped;
  routed = v.routed;
  targets = v.targets;
  named = v.named;
}

pub remove_connection-IsSound :
    (source target : String) (s : ConsoleState)
    → IsSound s
    → Ensures IsSound (remove_connection source target s)
unfolding remove_connection
remove_connection-IsSound source target s (v, _) =
    elim (Bool-cases (not (any (same_connection edge) s.blueprint.connections))) [
      | inl missing ↦ rw missing tt
      | inr found ↦ rw found (remove_first-IsValid edge s.blueprint v, refl)
    ]
  where
    edge : ConnectionBlueprint
    edge = record { source = source; target = target }

mapper-IsValid :
    (agent mode : String) (b : ConsoleBlueprint)
    → IsValid b
    → is_node b agent ≡ true
    → IsValid (record b { mappers = put agent mode b.mappers })
mapper-IsValid agent mode b v known = record {
  acyclic = v.acyclic;
  distinct = v.distinct;
  ends = v.ends;
  mapped = λ k h. elim (Bool-cases (agent == k)) [
    | inl e ↦ subst (λ j. is_node b j ≡ true) ((eq_iff agent k).0 e) known
    | inr e ↦ v.mapped k (ground (arith, contains-put k agent mode b.mappers))
  ];
  routed = v.routed;
  targets = v.targets;
  named = v.named;
}

pub mapper-IsSound :
    (agent mode : String) (s : ConsoleState) → IsSound s → Ensures IsSound (mapper agent mode s)
unfolding mapper
mapper-IsSound agent mode s (v, _) =
    elim (Bool-cases (not (mode == "concat" || mode == "json" || mode == "labelled"))) [
      | inl bad ↦ rw bad tt
      | inr good ↦ elim (Bool-cases (not (is_node s.blueprint agent))) [
        | inl unknown ↦ rw (good, unknown) tt
        | inr known ↦
            rw (good, known) (mapper-IsValid agent mode s.blueprint v (ground arith), refl)
      ]
    ]

known_targets :
    (b : ConsoleBlueprint) (x : String) (ts : List String)
    → any (λ target. not (is_node b target)) ts ≡ false
    → mem x ts ≡ true
    → is_node b x ≡ true
known_targets b x [] h m = cc
known_targets b x (t ∷ ts) h m = elim (Bool-cases (t == x)) [
  | inl e ↦ subst (λ j. is_node b j ≡ true) ((eq_iff t x).0 e) (ground arith)
  | inr e ↦ known_targets b x ts (ground arith) (ground arith)
]

router-IsValid :
    (agent : String) (ts : List String) (b : ConsoleBlueprint)
    → IsValid b
    → is_node b agent ≡ true
    → any (λ target. not (is_node b target)) ts ≡ false
    → IsValid (record b { routers = put agent (unique ts) b.routers })
router-IsValid agent ts b v known all_known = record {
  acyclic = v.acyclic;
  distinct = v.distinct;
  ends = v.ends;
  mapped = v.mapped;
  routed = λ k h. elim (Bool-cases (agent == k)) [
    | inl e ↦ subst (λ j. is_node b j ≡ true) ((eq_iff agent k).0 e) known
    | inr e ↦ v.routed k (ground (arith, contains-put k agent (unique ts) b.routers))
  ];
  targets = λ k x us g m. elim (Bool-cases (agent == k)) [
    | inl e ↦
        let p : unique ts ≡ us = ground (arith, get-put k agent (unique ts) b.routers) in
        known_targets b x ts all_known
          (sym (mem-unique_from x [] ts) ∙ subst (λ l. mem x l ≡ true) (sym p) m)
    | inr e ↦ v.targets k x us (ground (arith, get-put k agent (unique ts) b.routers)) m
  ];
  named = v.named;
}

pub router-IsSound :
    (agent : String) (ts : List String) (s : ConsoleState)
    → IsSound s
    → Ensures IsSound (router agent ts s)
unfolding router
router-IsSound agent ts s (v, _) =
    elim (Bool-cases
      (not (is_node s.blueprint agent) || any (λ target. not (is_node s.blueprint target)) ts)) [
        | inl unknown ↦ rw unknown tt
        | inr known ↦
            rw known (router-IsValid agent ts s.blueprint v (ground arith) (ground arith), refl)
      ]
