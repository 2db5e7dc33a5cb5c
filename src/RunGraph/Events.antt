-- ===== src/RunGraph/Events.antt =====
-- projection.py: the pages of run graph events. A cursor or a limit below 0 counts as 0.
use angelus.Prelude.{
  ℕ, zero, suc, ◌+◌, min, max, Bool, true, false, ◌&&◌, ◌||◌, not, Option, none, some, List, [],
  ◌∷◌, ◌++◌, String, ◌==◌, or_else, get_or, is_empty, if◌then◌else◌, ltb, leb, length, Result, ok,
  err,
}
use angelus.Prelude.Dict.{get}
use angelus.RunGraph.Types.{RunNodeState, RunState, RunGraphNode, RunGraph, Value}
use angelus.RunGraph.Reducer.{
  Event, data_of, type_of, agent_of, parent_of, when_of, str_or, some_message, apply_journal_event,
}
use angelus.RunGraph.Attempts.{Evidence, events_of, replay_prefix}

-- The `type` of an event, with the part of its data that goes with it.
pub data EventKind : Type 0 where
  node_state_changed :
      Option RunNodeState → RunNodeState → Option String → Option String → EventKind
  run_state_changed : RunState → RunState → Option String → Option String → EventKind
  checkpoint_committed : Option Value → EventKind
  node_activity run_activity : EventKind

pub record RunGraphEvent : Type 0 where
  pub execution_id : Option String
  pub sequence : ℕ
  pub kind : EventKind
  pub node_id : Option String
  pub occurred_at : Option ℕ
  pub journal_type : String
  pub parent_id : Option String
  pub origin : Option String
  pub task_id : Option String
  pub plan_task_id : Option String
  pub message : Option String

abbrev node_rank : RunNodeState → ℕ
node_rank RunNodeState.pending = 0
node_rank RunNodeState.queued = 1
node_rank RunNodeState.running = 2
node_rank RunNodeState.succeeded = 3
node_rank RunNodeState.failed = 4
node_rank RunNodeState.stopped = 5
node_rank RunNodeState.cancelled = 6
node_rank RunNodeState.skipped = 7

abbrev run_rank : RunState → ℕ
run_rank RunState.idle = 0
run_rank RunState.running = 1
run_rank RunState.stopping = 2
run_rank RunState.force_stopping = 3
run_rank RunState.completed = 4
run_rank RunState.failed = 5
run_rank RunState.stopped = 6
run_rank RunState.interrupted = 7

abbrev same : ℕ → ℕ → Bool
same a b = leb a b && leb b a

abbrev pub in_state : Option RunNodeState → RunNodeState → Bool
in_state none state = false
in_state (some previous) state = same (node_rank previous) (node_rank state)

abbrev pub filled : Option String → Option String
filled none = none
filled (some s) = some_message s

-- Whether a value of the journal counts as true.
abbrev pub is_truthy : Value → Bool
is_truthy (Value.text s) = not (is_empty s)
is_truthy (Value.number zero _) = false
is_truthy (Value.number (suc _) _) = true
is_truthy (Value.other shown) =
    not (shown == "None" || shown == "False" || shown == "[]" || shown == "{}")

abbrev pub truthy_text : Option Value → Option String
truthy_text none = none
truthy_text (some value) = if is_truthy value then some (str_or "" (some value)) else none

abbrev pub node_of : RunGraph → Option String → Option RunGraphNode
node_of graph none = none
node_of graph (some agent) = get agent graph.nodes

abbrev pub state_of : Option RunGraphNode → Option RunNodeState
state_of none = none
state_of (some node) = some node.state

abbrev pub node_change : Option RunNodeState → Option RunGraphNode → Option EventKind
node_change previous none = none
node_change previous (some node) =
    if in_state previous node.state
    then none
    else some (node_state_changed previous node.state node.reason node.error)

abbrev pub run_change : RunState → RunGraph → Option EventKind
run_change previous graph =
    if same (run_rank graph.state) (run_rank previous)
    then none
    else some (run_state_changed previous graph.state graph.stop_reason graph.error)

abbrev pub commit_of : Event → Option EventKind
commit_of event =
    if type_of event == "checkpoint_committed"
    then some (checkpoint_committed (get "generation" (data_of event)))
    else none

abbrev pub activity_kind : Option RunGraphNode → EventKind
activity_kind none = run_activity
activity_kind (some node) = node_activity

abbrev pub kind_of_event :
    Option RunGraphNode → RunGraph → Event → RunState → Option RunNodeState → EventKind
kind_of_event node graph event run_state node_state =
    get_or (activity_kind node) (
      or_else (node_change node_state node)
        (or_else (run_change run_state graph) (commit_of event)))

-- The facts of the node that an event carries.
abbrev pub node_facts :
    Option RunGraphNode → Event → Option String × Option String × Option String × Option String
node_facts none event = (none, none, none, none)
node_facts (some node) event = (
  or_else (filled node.parent_id) (parent_of (data_of event)),
  some_message node.origin,
  filled node.task_id,
  filled node.plan_task_id,
)

-- `_run_graph_event`, on the graph behind the record.
unfoldable pub run_graph_event :
    RunGraph → Event → ℕ → RunState → Option RunNodeState → RunGraphEvent
run_graph_event graph event sequence run_state node_state =
    let agent = agent_of event in
    let node = node_of graph agent in
    let (parent, origin, task, plan_task) = node_facts node event in
    record {
      execution_id = graph.execution_id;
      sequence = sequence;
      kind = kind_of_event node graph event run_state node_state;
      node_id = agent;
      occurred_at = when_of event;
      journal_type = type_of event;
      parent_id = parent;
      origin = origin;
      task_id = task;
      plan_task_id = plan_task;
      message = truthy_text (get "message" event.fields);
    }

-- What one record of the journal adds to the page, with the states before it.
abbrev pub projected : Event → ℕ → RunGraph → RunGraphEvent
projected event sequence graph =
    run_graph_event (apply_journal_event event sequence graph) event sequence graph.state
      (state_of (node_of graph (agent_of event)))

-- The loop of `events`: the page, and `has_more`.
abbrev pub page_loop :
    ℕ → ℕ → ℕ → RunGraph → List RunGraphEvent → List Event → List RunGraphEvent × Bool
page_loop start maximum sequence graph page [] = (page, false)
page_loop start maximum sequence graph page (event ∷ events) =
    let rest =
      page_loop start maximum (sequence + 1) (apply_journal_event event (sequence + 1) graph)
        (if leb (sequence + 1) start
          then page
          else page ++ projected event (sequence + 1) graph ∷ [])
        events in
    if leb maximum (length page) then (page, true) else rest

pub record RunGraphPage : Type 0 where
  pub events : List RunGraphEvent
  pub next_cursor : ℕ
  pub has_more : Bool
  pub execution_id : String

pub data ProjectionError : Type 0 where
  no_attempt : ProjectionError

abbrev pub new_graph : String → Evidence → RunGraph
new_graph session_id evidence = record {
  session_id = session_id;
  execution_id = some evidence.execution_id;
  attempt = evidence.attempt;
  state = RunState.idle;
  nodes = [];
  edges = [];
  event_cursor = 0;
  started_at = none;
  finished_at = none;
  error = none;
  stop_reason = none;
  checkpoint = none;
}

-- The graph and the cursor that the page starts from: the checkpoint, unless the caller still needs
-- facts from before it.
abbrev pub seed : String → Evidence → ℕ → RunGraph × ℕ
seed session_id evidence start =
    let fresh = new_graph session_id evidence in
    let (graph, cursor) = replay_prefix evidence.payload fresh in
    if ltb start cursor then (fresh, 0) else (graph, cursor)

abbrev pub page_size : ℕ → ℕ
page_size limit = max 1 (min limit 500)

unfoldable pub events : String → Option Evidence → ℕ → ℕ → Result ProjectionError RunGraphPage
events session_id none start limit = err no_attempt
events session_id (some evidence) start limit =
    let (graph, cursor) = seed session_id evidence start in
    let (page, more) =
      page_loop start (page_size limit) cursor graph [] (events_of cursor evidence.lines) in
    ok (record {
      events = page;
      next_cursor = start + length page;
      has_more = more;
      execution_id = evidence.execution_id;
    })
