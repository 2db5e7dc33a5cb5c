-- ===== src/RunGraph/Reducer.antt =====
-- reducer.py: what the journal's records make of the graph.
use angelus.Prelude.{
  ℕ, suc, Bool, true, false, Option, none, some, List, [], ◌∷◌, ◌&&◌, ◌||◌, String, codes, or_else,
  get_or, is_some, is_empty, leb, if◌then◌else◌, ◌==◌,
}
use angelus.Prelude.Dict.{Dict, get}
use angelus.RunGraph.Types.{
  RunNodeState, RunState, RunGraphNode, RunGraph, Value, Changes, ensure_node,
}

-- A decoded record: its own fields, and as its payload what `data` holds where that is a mapping.
pub record Event : Type 0 where
  pub fields : Dict Value
  pub payload : Option (Dict Value)

-- `_NODE_STATES`
abbrev pub node_state : String → Option RunNodeState
node_state s =
    if s == "idle" || s == "pending"
    then some RunNodeState.pending
    else if s == "queued"
    then some RunNodeState.queued
    else if s == "submitted" || s == "running"
    then some RunNodeState.running
    else if s == "completed" || s == "succeeded"
    then some RunNodeState.succeeded
    else if s == "failed"
    then some RunNodeState.failed
    else if s == "stopped" || s == "interrupted"
    then some RunNodeState.stopped
    else if s == "cancelled"
    then some RunNodeState.cancelled
    else if s == "skipped"
    then some RunNodeState.skipped
    else none

-- `_text`
abbrev pub text_of : Option Value → Option String
text_of (some (Value.text s)) = if is_empty s then none else some s
text_of _ = none

-- `str(d.get(key, default))`
abbrev pub str_or : String → Option Value → String
str_or default none = default
str_or default (some (Value.text s)) = s
str_or default (some (Value.number _ shown)) = shown
str_or default (some (Value.other shown)) = shown

abbrev pub number_of : Option Value → Option ℕ
number_of (some (Value.number n _)) = some n
number_of _ = none

-- `when or other`: a time of 0 counts as false.
abbrev pub time_or : Option ℕ → Option ℕ → Option ℕ
time_or (some (suc n)) other = some (suc n)
time_or _ other = other

-- `message or other`
abbrev pub message_or : String → String → String
message_or message other = if is_empty message then other else message

abbrev pub some_message : String → Option String
some_message message = if is_empty message then none else some message

abbrev pub data_of : Event → Dict Value
data_of event = get_or [] event.payload

abbrev pub type_of : Event → String
type_of event = str_or "" (get "type" event.fields)

abbrev pub message_of : Event → String
message_of event = str_or "" (get "message" event.fields)

abbrev pub agent_of : Event → Option String
agent_of event =
    or_else (text_of (get "agent" event.fields)) (text_of (get "agent" (data_of event)))

abbrev pub when_of : Event → Option ℕ
when_of event = number_of (get "timestamp" event.fields)

-- The delegating agent, under any of its three keys.
abbrev pub parent_of : Dict Value → Option String
parent_of payload =
    or_else (text_of (get "parent_id" payload))
      (or_else (text_of (get "parent" payload)) (text_of (get "reply_to" payload)))

-- The branch of `apply_journal_event` that takes a fact of this type.
pub data FactKind : Type 0 where
  started stop checkpoint activity : FactKind
  terminal : RunState → FactKind

abbrev pub kind_of : String → FactKind
kind_of type =
    if type == "execution_started"
    then FactKind.started
    else if type == "stop_requested"
    then FactKind.stop
    else if type == "execution_completed"
    then FactKind.terminal RunState.completed
    else if type == "execution_failed"
    then FactKind.terminal RunState.failed
    else if type == "execution_stopped"
    then FactKind.terminal RunState.stopped
    else if type == "execution_interrupted"
    then FactKind.terminal RunState.interrupted
    else if type == "checkpoint_committed"
    then FactKind.checkpoint
    else FactKind.activity

abbrev is_prefix : List ℕ → List ℕ → Bool
is_prefix [] _ = true
is_prefix (_ ∷ _) [] = false
is_prefix (c ∷ cs) (d ∷ ds) = leb c d && leb d c && is_prefix cs ds

abbrev pub set_parent : String → Option String → RunGraphNode → RunGraphNode
set_parent agent none node = node
set_parent agent (some p) node = if p == agent then node else record node { parent_id = some p }

-- The branch of the last chain of tests that an event type takes.
pub data Activity : Type 0 where
  dispatched succeeds fails stops finalized reported runs unknown : Activity

abbrev pub activity_of : String → Activity
activity_of type =
    if type == "task:dispatched"
    then Activity.dispatched
    else if type == "agent:completed" || type == "agent:complete"
    then Activity.succeeds
    else if type == "agent:failed" || type == "agent:error" || type == "task:report_missing"
    then Activity.fails
    else if type == "agent:stopped" || type == "agent:termination"
    then Activity.stops
    else if type == "task:finalized"
    then Activity.finalized
    else if type == "task:reported"
    then Activity.reported
    else if is_prefix (codes "agent:") (codes type)
    then Activity.runs
    else Activity.unknown

-- What the fact makes of its agent's state.
abbrev pub progress : Activity → String → Dict Value → RunGraphNode → RunGraphNode
progress Activity.dispatched message payload node = record node { state = RunNodeState.queued }
progress Activity.succeeds message payload node = record node { state = RunNodeState.succeeded }
progress Activity.fails message payload node = record node {
  state = RunNodeState.failed;
  error = or_else (text_of (get "error" payload)) (or_else (some_message message) node.error);
}
progress Activity.stops message payload node = record node {
  state = RunNodeState.stopped;
  reason =
      or_else (text_of (get "reason" payload)) (
        or_else (text_of (get "termination" payload)) (or_else (some_message message) node.reason));
}
progress Activity.finalized message payload node = record node {
  state = get_or node.state (node_state (str_or "" (get "state" payload)));
}
progress Activity.reported message payload node = record node {
  state = get_or node.state (node_state (str_or "" (get "status" payload)));
}
progress Activity.runs message payload node = record node { state = RunNodeState.running }
progress Activity.unknown message payload node = node

-- What a fact about an agent makes of its node.
unfoldable pub observed : String → Event → RunGraphNode → RunGraphNode
observed agent event node =
    let payload = data_of event in
    let known = set_parent agent (parent_of payload) node in
    progress (activity_of (type_of event)) (message_of event) payload (record known {
      task_id = or_else (text_of (get "task_id" payload)) known.task_id;
      plan_task_id = or_else (text_of (get "plan_task_id" payload)) known.plan_task_id;
      message = message_or (message_of event) known.message;
      updated_at = time_or (when_of event) known.updated_at;
    })

abbrev pub is_force : Option Value → Bool
is_force (some (Value.text s)) = s == "force"
is_force _ = false

-- What such a fact asks of `ensure_node`.
abbrev pub origin_of : Event → Changes
origin_of event = record {
  kind = none;
  origin =
      some (if is_some (text_of (get "task_id" (data_of event))) then "runtime" else "blueprint");
  parent_id = none;
}

-- The facts about an agent: the rest of `apply_journal_event` behind its early returns.
abbrev pub apply_agent_event : Event → Option String → RunGraph → RunGraph
apply_agent_event event none graph = graph
apply_agent_event event (some agent) graph =
    ensure_node agent (origin_of event) (observed agent event) graph

abbrev pub apply_kind : FactKind → Event → RunGraph → RunGraph
apply_kind FactKind.started event graph = record graph {
  state = RunState.running;
  started_at = time_or (when_of event) graph.started_at;
}
apply_kind FactKind.stop event graph = record graph {
  state =
      if is_force (get "mode" (data_of event)) then RunState.force_stopping else RunState.stopping;
  stop_reason = text_of (get "reason" (data_of event));
}
apply_kind (FactKind.terminal final) event graph = record graph {
  state = final;
  finished_at = when_of event;
  error =
      or_else (text_of (get "error" (data_of event)))
        (or_else (text_of (get "reason" (data_of event))) graph.error);
}
apply_kind FactKind.checkpoint event graph = record graph { checkpoint = some (data_of event) }
apply_kind FactKind.activity event graph = apply_agent_event event (agent_of event) graph

unfoldable pub apply_journal_event : Event → ℕ → RunGraph → RunGraph
apply_journal_event event cursor graph =
    apply_kind (kind_of (type_of event)) event (record graph { event_cursor = cursor })
