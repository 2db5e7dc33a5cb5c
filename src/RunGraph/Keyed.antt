-- ===== src/RunGraph/Keyed.antt =====
-- The dict of a graph's nodes (models.py), through journal records and checkpoints (reducer.py).
use angelus.Prelude.{
  ℕ, ◌≡◌, refl, sym, ◌∙◌, subst, Bool, true, false, not, Option, none, some, List, [], ◌∷◌, String,
  get_or, if◌then◌else◌, ◌==◌, eq_iff, arith, any, ◌++◌, IsUnique,
}
use angelus.Prelude.Dict.{Dict, get, put, keys, put-IsUnique}
use angelus.RunGraph.Types.{
  RunGraphNode, RunGraph, Value, Changes, new_node, ensure_node, add_edge, same_edge,
}
use angelus.RunGraph.Reducer.{
  Event, FactKind, Activity, kind_of, type_of, activity_of, message_of, data_of, agent_of,
  parent_of, set_parent, progress, observed, origin_of, apply_agent_event, apply_kind,
  apply_journal_event,
}
use angelus.RunGraph.Snapshots.{
  Snapshot, hydrated, hydrate_named, hydrate_nodes, hydrate_edges, hydrate_graph, is_text,
  apply_run_graph_snapshot,
}

abbrev pub AllKeyed : Dict RunGraphNode → Type 0
AllKeyed [] = Unit
AllKeyed ((k, node) ∷ d) = (node.id ≡ k) × AllKeyed d

-- Every node stands under its own id, and no id stands twice.
pub record IsKeyed (nodes : Dict RunGraphNode) : Type 0 where
  pub own : AllKeyed nodes
  pub distinct : IsUnique (keys nodes)

put-AllKeyed :
    (k : String) (node : RunGraphNode) (d : Dict RunGraphNode)
    → node.id ≡ k
    → AllKeyed d
    → AllKeyed (put k node d)
put-AllKeyed k node [] e v = (e, tt)
put-AllKeyed k node ((j, w) ∷ d) e (o, v) = placed (j == k) (put-AllKeyed k node d e v)
  where
    placed :
        (t : Bool)
        → AllKeyed (put k node d)
        → AllKeyed (if t then (k, node) ∷ d else (j, w) ∷ put k node d)
    placed true r = (e, v)
    placed false r = (o, r)

found_id :
    (k : String) (d : Dict RunGraphNode) → AllKeyed d → (get_or (new_node k) (get k d)).id ≡ k
found_id k [] v = refl
found_id k ((j, w) ∷ d) (o, v) = placed (j == k) (λ e. ground (arith, eq_iff j k)) (found_id k d v)
  where
    placed :
        (t : Bool)
        → (t ≡ true → j ≡ k)
        → (get_or (new_node k) (get k d)).id ≡ k
        → (get_or (new_node k) (if t then some w else get k d)).id ≡ k
    placed true e r = o ∙ e refl
    placed false e r = r

ensure_node-IsKeyed :
    (id : String) (c : Changes) (f : RunGraphNode → RunGraphNode) (graph : RunGraph)
    → ((node : RunGraphNode) → (f node).id ≡ node.id)
    → IsKeyed graph.nodes
    → IsKeyed (ensure_node id c f graph).nodes
unfolding ensure_node
ensure_node-IsKeyed id c f graph keeps v = record {
  own = put-AllKeyed id _ graph.nodes (keeps _ ∙ found_id id graph.nodes v.own) v.own;
  distinct = put-IsUnique id _ graph.nodes v.distinct;
}

progress_id :
    (activity : Activity) (message : String) (payload : Dict Value) (node : RunGraphNode)
    → (progress activity message payload node).id ≡ node.id
progress_id Activity.dispatched message payload node = refl
progress_id Activity.succeeds message payload node = refl
progress_id Activity.fails message payload node = refl
progress_id Activity.stops message payload node = refl
progress_id Activity.finalized message payload node = refl
progress_id Activity.reported message payload node = refl
progress_id Activity.runs message payload node = refl
progress_id Activity.unknown message payload node = refl

parent_id_kept :
    (agent : String) (p : Option String) (node : RunGraphNode)
    → (set_parent agent p node).id ≡ node.id
parent_id_kept agent none node = refl
parent_id_kept agent (some p) node = either (p == agent)
  where
    either : (t : Bool) → (if t then node else record node { parent_id = some p }).id ≡ node.id
    either true = refl
    either false = refl

observed_id :
    (agent : String) (event : Event) (node : RunGraphNode)
    → (observed agent event node).id ≡ node.id
unfolding observed
observed_id agent event node =
    progress_id (activity_of (type_of event)) (message_of event) (data_of event) _
    ∙ parent_id_kept agent (parent_of (data_of event)) node

kind-IsKeyed :
    (kind : FactKind) (event : Event) (graph : RunGraph)
    → IsKeyed graph.nodes
    → IsKeyed (apply_kind kind event graph).nodes
kind-IsKeyed FactKind.started event graph v = v
kind-IsKeyed FactKind.stop event graph v = v
kind-IsKeyed (FactKind.terminal final) event graph v = v
kind-IsKeyed FactKind.checkpoint event graph v = v
kind-IsKeyed FactKind.activity event graph v = about (agent_of event)
  where
    about : (agent : Option String) → IsKeyed (apply_agent_event event agent graph).nodes
    about none = v
    about (some agent) =
        ensure_node-IsKeyed agent (origin_of event) (observed agent event) graph
          (observed_id agent event) v

hydrate_named-IsKeyed :
    (raw : Dict Value) (id : Option Value) (graph : RunGraph)
    → IsKeyed graph.nodes
    → IsKeyed (hydrate_named raw id graph).nodes
unfolding hydrated
hydrate_named-IsKeyed raw none graph v = v
hydrate_named-IsKeyed raw (some (Value.number n s)) graph v = v
hydrate_named-IsKeyed raw (some (Value.other s)) graph v = v
hydrate_named-IsKeyed raw (some (Value.text id)) graph v =
    ensure_node-IsKeyed id _ (hydrated raw) graph (λ node. refl) v

hydrate_nodes-IsKeyed :
    (raws : List (Option (Dict Value))) (graph : RunGraph)
    → IsKeyed graph.nodes
    → IsKeyed (hydrate_nodes raws graph).nodes
unfolding hydrate_nodes
hydrate_nodes-IsKeyed [] graph v = v
hydrate_nodes-IsKeyed (none ∷ raws) graph v = hydrate_nodes-IsKeyed raws graph v
hydrate_nodes-IsKeyed (some raw ∷ raws) graph v =
    hydrate_nodes-IsKeyed raws (hydrate_named raw (get "id" raw) graph)
      (hydrate_named-IsKeyed raw (get "id" raw) graph v)

nodes-add_edge :
    (source target kind : String) (graph : RunGraph)
    → (add_edge source target kind graph).nodes ≡ graph.nodes
unfolding add_edge
nodes-add_edge source target kind graph = either (source == "") (target == "")
  where
    either :
        (s t : Bool)
        → (if s then graph else if t then graph else record graph {
          edges =
              if any
                (same_edge (record { source = source; target = target; kind = kind }))
                graph.edges
              then graph.edges
              else graph.edges ++ record { source = source; target = target; kind = kind } ∷ [];
        }).nodes
          ≡ graph.nodes
    either true t = refl
    either false true = refl
    either false false = refl

nodes-hydrate_edges :
    (raws : List (Option (Dict Value))) (graph : RunGraph)
    → (hydrate_edges raws graph).nodes ≡ graph.nodes
unfolding hydrate_edges
nodes-hydrate_edges [] graph = refl
nodes-hydrate_edges (none ∷ raws) graph = nodes-hydrate_edges raws graph
nodes-hydrate_edges (some raw ∷ raws) graph =
    nodes-hydrate_edges raws (add_edge _ _ _ graph) ∙ nodes-add_edge _ _ _ graph

-- Neither a journal record nor a checkpoint, whatever they hold, puts a node of the run graph
-- under another id than its own, or an id twice.
pub nodes-IsKeyed :
    (event : Event) (cursor : ℕ) (snapshot : Snapshot) (graph : RunGraph)
    → IsKeyed graph.nodes
    → IsKeyed (apply_journal_event event cursor graph).nodes
      × IsKeyed (apply_run_graph_snapshot snapshot graph).nodes
unfolding apply_journal_event apply_run_graph_snapshot
nodes-IsKeyed event cursor snapshot graph v = (
  kind-IsKeyed (kind_of (type_of event)) event (record graph { event_cursor = cursor }) v,
  hydrates (not (is_text "angelus.run-graph" (get "kind" snapshot.fields))),
)
  where
    hydrates :
        (t : Bool)
        → IsKeyed
            (if t
              then graph
              else hydrate_edges snapshot.edges
                  (hydrate_nodes snapshot.nodes (hydrate_graph snapshot.fields graph))).nodes
    hydrates true = v
    hydrates false =
        subst IsKeyed (sym (nodes-hydrate_edges snapshot.edges _))
          (hydrate_nodes-IsKeyed snapshot.nodes (hydrate_graph snapshot.fields graph) v)
