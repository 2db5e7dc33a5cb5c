-- ===== src/Console/Integrity.antt =====
-- Well-formed topologies: the invariant of `class ConsoleState`, and its operations on workers.
use angelus.Prelude.{
  ◌≡◌, refl, sym, subst, inl, inr, true, false, ◌&&◌, ◌||◌, not, some, List, [], ◌∷◌, String, ◌==◌,
  eq_iff, ◌∙◌, eq_refl, arith, keep, mem, Bool-cases, Ensures,
}
use angelus.Prelude.Dict.{Dict, get, contains, put, pop, get-pop, contains-put, contains-pop}
use angelus.Console.Types.{WorkerBlueprint, ConsoleBlueprint, ConsoleState}
use angelus.Console.Topology.{valid_name, add_worker, touches, drop_target, remove_worker, is_node}
use angelus.Console.Reach.{linked}
use angelus.Console.Acyclic.{IsAcyclic, IsDistinct, fewer-IsAcyclic, linked-keep, keep-IsDistinct}

pub record IsValid (b : ConsoleBlueprint) : Type 0 where
  pub acyclic : IsAcyclic b.connections
  pub distinct : IsDistinct b.connections
  pub ends : (x y : String) → linked x y b.connections ≡ true → (is_node b x && is_node b y) ≡ true
  pub mapped : (k : String) → contains k b.mappers ≡ true → is_node b k ≡ true
  pub routed : (k : String) → contains k b.routers ≡ true → is_node b k ≡ true
  pub targets :
      (k x : String) (ts : List String)
      → get k b.routers ≡ some ts
      → mem x ts ≡ true
      → is_node b x ≡ true
  pub named :
      (k : String) → contains k b.workers ≡ true → (valid_name k && not (k == "coordinator")) ≡ true

-- A state that keeps the invariant and stands on disk as it stands in memory.
abbrev pub IsSound : ConsoleState → Type 0
IsSound s = IsValid s.blueprint × (s.saved ≡ s.blueprint)

-- One more worker: every name that was a node still is one.
more_nodes :
    (name : String) (w : WorkerBlueprint) (b : ConsoleBlueprint) (x : String)
    → is_node b x ≡ true
    → is_node (record b { workers = put name w b.workers }) x ≡ true
more_nodes name w b x h = ground (arith, contains-put x name w b.workers)

put_worker-IsValid :
    (name : String) (w : WorkerBlueprint) (b : ConsoleBlueprint)
    → IsValid b
    → (valid_name name && not (name == "coordinator")) ≡ true
    → IsValid (record b { workers = put name w b.workers })
put_worker-IsValid name w b v good = record {
  acyclic = v.acyclic;
  distinct = v.distinct;
  ends = λ x y l. ground (arith, v.ends x y l, more_nodes name w b x, more_nodes name w b y);
  mapped = λ k h. more_nodes name w b k (v.mapped k h);
  routed = λ k h. more_nodes name w b k (v.routed k h);
  targets = λ k x ts g m. more_nodes name w b x (v.targets k x ts g m);
  named = λ k h. elim (Bool-cases (name == k)) [
    | inl e ↦
        subst (λ j. (valid_name j && not (j == "coordinator")) ≡ true) ((eq_iff name k).0 e) good
    | inr e ↦ v.named k (ground (arith, contains-put k name w b.workers))
  ];
}

pub add_worker-IsSound :
    (name prompt : String) (s : ConsoleState)
    → IsSound s
    → Ensures IsSound (add_worker name prompt s)
unfolding add_worker
add_worker-IsSound name prompt s (v, _) =
    elim (Bool-cases (not (valid_name name) || name == "coordinator")) [
      | inl bad ↦ rw bad tt
      | inr good ↦ elim (Bool-cases (contains name s.blueprint.workers)) [
        | inl old ↦ rw (good, old) tt
        | inr new ↦ rw (good, new) (put_worker-IsValid name _ s.blueprint v (ground arith), refl)
      ]
    ]

mem-keep :
    (n x : String) (ts : List String)
    → mem x (keep (λ target. not (target == n)) ts) ≡ (mem x ts && not (x == n))
mem-keep n x [] = refl
mem-keep n x (t ∷ ts) = ground (arith, mem-keep n x ts, eq_iff t x, eq_iff t n, eq_iff x n)

contains-drop_target :
    (n k : String) (d : Dict (List String)) → contains k (drop_target n d) ≡ contains k d
contains-drop_target n k [] = refl
contains-drop_target n k ((j, ts) ∷ d) = rw (contains-drop_target n k d)

-- What a router keeps of its targets was there before, and is not the name that was dropped.
get-drop_target :
    (n k : String) (d : Dict (List String)) {ts : List String}
    → get k (drop_target n d) ≡ some ts
    → (us : List String) × (get k d ≡ some us) × (ts ≡ keep (λ target. not (target == n)) us)
get-drop_target n k [] h = cc
get-drop_target n k ((j, us) ∷ d) h = elim (Bool-cases (j == k)) [
  | inl e ↦ (us, rw e, ground arith)
  | inr e ↦ let (ws, g, p) = get-drop_target n k d (ground arith) in (ws, rw e g, p)
]

module _ (n : String) (b : ConsoleBlueprint) where
  abbrev pub without : ConsoleBlueprint
  without = record {
    workers = pop n b.workers;
    connections = keep (λ edge. not (touches n edge)) b.connections;
    mappers = pop n b.mappers;
    routers = drop_target n (pop n b.routers);
    plans = b.plans;
  }

  -- Every other name that was a node still is one.
  other_nodes : (x : String) → is_node b x ≡ true → (x == n) ≡ false → is_node without x ≡ true
  other_nodes x h ne = ground (arith, contains-pop x n b.workers, eq_iff x n, eq_iff n x)

  kept_targets :
      IsValid b
      → (k x : String) (ts : List String) → get k without.routers ≡ some ts
      → mem x ts ≡ true
      → is_node without x ≡ true
  kept_targets v k x ts g m =
      let (us, u, p) = get-drop_target n k (pop n b.routers) g in
      let q : (mem x us && not (x == n)) ≡ true =
        sym (mem-keep n x us) ∙ subst (λ l. mem x l ≡ true) p m in
      let r : get k b.routers ≡ some us = ground (arith, get-pop k n b.routers) in
      other_nodes x (v.targets k x us r (ground arith)) (ground arith)

  without-IsValid : IsValid b → IsValid without
  without-IsValid v = record {
    acyclic = fewer-IsAcyclic (λ x y l. ground (arith, linked-keep n x y b.connections)) v.acyclic;
    distinct = keep-IsDistinct n b.connections v.distinct;
    ends = λ x y l.
        ground (arith, linked-keep n x y b.connections, v.ends x y, other_nodes x, other_nodes y);
    mapped = λ k h.
        ground
          (arith, contains-pop k n b.mappers, v.mapped k, other_nodes k, eq_iff k n, eq_iff n k);
    routed = λ k h. ground (
      arith,
      contains-drop_target n k (pop n b.routers),
      contains-pop k n b.routers,
      v.routed k,
      other_nodes k,
      eq_iff k n,
      eq_iff n k,
    );
    targets = kept_targets v;
    named = λ k h. v.named k (ground (arith, contains-pop k n b.workers));
  }

pub remove_worker-IsSound :
    (name : String) (s : ConsoleState) → IsSound s → Ensures IsSound (remove_worker name s)
unfolding remove_worker
remove_worker-IsSound name s (v, _) = elim (Bool-cases (name == "coordinator")) [
  | inl fixed ↦ rw fixed tt
  | inr other ↦ elim (Bool-cases (not (contains name s.blueprint.workers))) [
    | inl missing ↦ rw (other, missing) tt
    | inr known ↦ rw (other, known) (without-IsValid name s.blueprint v, refl)
  ]
]

-- No trace of a removed worker is left: no worker, connection, mapper, router or router target.
abbrev pub IsForgotten : String → ConsoleBlueprint → Type 0
IsForgotten n b =
    (contains n b.workers ≡ false)
    × ((x : String) → (linked n x b.connections || linked x n b.connections) ≡ false)
    × (contains n b.mappers ≡ false)
    × (contains n b.routers ≡ false)
    × ((k : String) (ts : List String) → get k b.routers ≡ some ts → mem n ts ≡ false)

without-IsForgotten : (n : String) (b : ConsoleBlueprint) → IsForgotten n (without n b)
without-IsForgotten n b = (
  rw (contains-pop n n b.workers) (rw (eq_refl n)),
  λ x. ground (arith, linked-keep n n x b.connections, linked-keep n x n b.connections, eq_refl n),
  rw (contains-pop n n b.mappers) (rw (eq_refl n)),
  rw (contains-drop_target n n (pop n b.routers))
      (rw (contains-pop n n b.routers) (rw (eq_refl n))),
  λ k ts g.
      let (us, u, p) = get-drop_target n k (pop n b.routers) g in
      subst (λ l. mem n l ≡ false) (sym p) (ground (arith, mem-keep n n us, eq_refl n)),
)

-- A removal of a worker that succeeds leaves no worker, connection, mapper, router or router
-- target of that name.
pub remove_worker_forgets :
    (name : String) (s : ConsoleState)
    → Ensures (λ t. IsForgotten name t.blueprint) (remove_worker name s)
unfolding remove_worker
remove_worker_forgets name s = elim (Bool-cases (name == "coordinator")) [
  | inl fixed ↦ rw fixed tt
  | inr other ↦ elim (Bool-cases (not (contains name s.blueprint.workers))) [
    | inl missing ↦ rw (other, missing) tt
    | inr known ↦ rw (other, known) (without-IsForgotten name s.blueprint)
  ]
]
