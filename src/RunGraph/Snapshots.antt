-- ===== src/RunGraph/Snapshots.antt =====
-- reducer.py: the hydration of a graph from a committed checkpoint.
use angelus.Prelude.{
  Bool, false, not, Option, none, some, List, [], ◌∷◌, String, or_else, get_or, if◌then◌else◌, ◌==◌,
}
use angelus.Prelude.Dict.{Dict, get}
use angelus.RunGraph.Types.{RunState, RunGraphNode, RunGraph, Value, ensure_node, add_edge}
use angelus.RunGraph.Reducer.{node_state, text_of, str_or, number_of}

-- A decoded checkpoint. Items of the two lists that are no mapping are `none`.
pub record Snapshot : Type 0 where
  pub fields : Dict Value
  pub nodes : List (Option (Dict Value))
  pub edges : List (Option (Dict Value))

-- `RunState(str(value))`, where it does not raise.
abbrev pub run_state : String → Option RunState
run_state s =
    if s == "idle"
    then some RunState.idle
    else if s == "running"
    then some RunState.running
    else if s == "stopping"
    then some RunState.stopping
    else if s == "force_stopping"
    then some RunState.force_stopping
    else if s == "completed"
    then some RunState.completed
    else if s == "failed"
    then some RunState.failed
    else if s == "stopped"
    then some RunState.stopped
    else if s == "interrupted"
    then some RunState.interrupted
    else none

-- `_run_state`: a missing value has the text `None`.
abbrev pub run_state_or : RunState → Option Value → RunState
run_state_or fallback value = get_or fallback (run_state (str_or "None" value))

-- What the raw record of a node makes of the node that `ensure_node` returns.
unfoldable pub hydrated : Dict Value → RunGraphNode → RunGraphNode
hydrated raw node = record node {
  state = get_or node.state (node_state (str_or "" (get "state" raw)));
  task_id = or_else (text_of (get "task_id" raw)) node.task_id;
  plan_task_id = or_else (text_of (get "plan_task_id" raw)) node.plan_task_id;
  message = str_or node.message (get "message" raw);
  error = or_else (text_of (get "error" raw)) node.error;
  reason = or_else (text_of (get "reason" raw)) node.reason;
  updated_at = or_else (number_of (get "updated_at" raw)) node.updated_at;
}

abbrev pub hydrate_named : Dict Value → Option Value → RunGraph → RunGraph
hydrate_named raw (some (Value.text id)) graph =
    ensure_node id
      (record {
        kind = some (str_or "agent" (get "kind" raw));
        origin = some (str_or "blueprint" (get "origin" raw));
        parent_id = text_of (get "parent_id" raw);
      })
      (hydrated raw) graph
hydrate_named raw _ graph = graph

-- The loops over the nodes and the edges of the checkpoint.
unfoldable pub hydrate_nodes : List (Option (Dict Value)) → RunGraph → RunGraph
hydrate_nodes [] graph = graph
hydrate_nodes (none ∷ raws) graph = hydrate_nodes raws graph
hydrate_nodes (some raw ∷ raws) graph = hydrate_nodes raws (hydrate_named raw (get "id" raw) graph)

unfoldable pub hydrate_edges : List (Option (Dict Value)) → RunGraph → RunGraph
hydrate_edges [] graph = graph
hydrate_edges (none ∷ raws) graph = hydrate_edges raws graph
hydrate_edges (some raw ∷ raws) graph = hydrate_edges raws (
    add_edge (str_or "" (get "source" raw)) (str_or "" (get "target" raw))
      (str_or "dependency" (get "kind" raw)) graph)

abbrev pub is_text : String → Option Value → Bool
is_text s (some (Value.text t)) = t == s
is_text s _ = false

-- The fields of the graph itself.
abbrev pub hydrate_graph : Dict Value → RunGraph → RunGraph
hydrate_graph fields graph = record graph {
  execution_id = or_else (text_of (get "execution_id" fields)) graph.execution_id;
  attempt = get_or graph.attempt (number_of (get "attempt" fields));
  state = run_state_or graph.state (get "state" fields);
  event_cursor = get_or graph.event_cursor (number_of (get "event_cursor" fields));
  started_at = or_else (number_of (get "started_at" fields)) graph.started_at;
  finished_at = or_else (number_of (get "finished_at" fields)) graph.finished_at;
  error = or_else (text_of (get "error" fields)) graph.error;
  stop_reason = or_else (text_of (get "stop_reason" fields)) graph.stop_reason;
}

unfoldable pub apply_run_graph_snapshot : Snapshot → RunGraph → RunGraph
apply_run_graph_snapshot snapshot graph =
    if not (is_text "angelus.run-graph" (get "kind" snapshot.fields))
    then graph
    else hydrate_edges snapshot.edges
        (hydrate_nodes snapshot.nodes (hydrate_graph snapshot.fields graph))
