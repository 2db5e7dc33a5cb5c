-- ===== src/RunGraph/Types.antt =====
-- models.py: the graph of one attempt, as it is served. `to_json` is left out.
use angelus.Prelude.{
  ℕ, Bool, Option, none, List, [], ◌∷◌, ◌++◌, ◌&&◌, String, any, or_else, get_or, if◌then◌else◌,
  ◌==◌,
}
use angelus.Prelude.Dict.{Dict, get, put}

pub data RunNodeState : Type 0 where
  pending queued running succeeded failed stopped cancelled skipped : RunNodeState

pub data RunState : Type 0 where
  idle running stopping force_stopping completed failed stopped interrupted : RunState

pub record RunGraphNode : Type 0 where
  pub id : String
  pub kind : String
  pub origin : String
  pub parent_id : Option String
  pub state : RunNodeState
  pub task_id : Option String
  pub plan_task_id : Option String
  pub message : String
  pub error : Option String
  pub reason : Option String
  pub updated_at : Option ℕ

pub record RunGraphEdge : Type 0 where
  pub source : String
  pub target : String
  pub kind : String

-- A value of a decoded JSON object; a value that is no text carries what `str` makes of it.
pub data Value : Type 0 where
  text : String → Value
  number : ℕ → String → Value
  other : String → Value

-- The edges are a dict whose keys are the edges' own fields.
pub record RunGraph : Type 0 where
  pub session_id : String
  pub execution_id : Option String
  pub attempt : ℕ
  pub state : RunState
  pub nodes : Dict RunGraphNode
  pub edges : List RunGraphEdge
  pub event_cursor : ℕ
  pub started_at : Option ℕ
  pub finished_at : Option ℕ
  pub error : Option String
  pub stop_reason : Option String
  pub checkpoint : Option (Dict Value)

-- `RunGraphNode(id=node_id)`
abbrev pub new_node : String → RunGraphNode
new_node node_id = record {
  id = node_id;
  kind = "agent";
  origin = "blueprint";
  parent_id = none;
  state = RunNodeState.pending;
  task_id = none;
  plan_task_id = none;
  message = "";
  error = none;
  reason = none;
  updated_at = none;
}

-- The `changes` of `ensure_node`: what is `None` is not set.
pub record Changes : Type 0 where
  pub kind : Option String
  pub origin : Option String
  pub parent_id : Option String

abbrev pub changed : Changes → RunGraphNode → RunGraphNode
changed c node = record node {
  kind = get_or node.kind c.kind;
  origin = get_or node.origin c.origin;
  parent_id = or_else c.parent_id node.parent_id;
}

-- `ensure_node`, and behind it what the caller does to the node that it returns.
unfoldable pub ensure_node : String → Changes → (RunGraphNode → RunGraphNode) → RunGraph → RunGraph
ensure_node node_id c f graph = record graph {
  nodes =
      put node_id (f (changed c (get_or (new_node node_id) (get node_id graph.nodes)))) graph.nodes;
}

abbrev pub same_edge : RunGraphEdge → RunGraphEdge → Bool
same_edge d e = d.source == e.source && d.target == e.target && d.kind == e.kind

unfoldable pub add_edge : String → String → String → RunGraph → RunGraph
add_edge source target kind graph =
    if source == ""
    then graph
    else if target == ""
    then graph
    else (let edge : RunGraphEdge = record { source = source; target = target; kind = kind } in
        record graph {
          edges =
              if any (same_edge edge) graph.edges then graph.edges else graph.edges ++ edge ∷ [];
        })
