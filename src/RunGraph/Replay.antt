-- ===== src/RunGraph/Replay.antt =====
-- The replay of a journal (projection.py's loop over the events, reducer.py), against descriptions
-- that read the journal alone.
use angelus.Prelude.{
  ℕ, ◌+◌, ◌≡◌, refl, ◌∙◌, ap, Bool, true, false, Option, none, some, List, [], ◌∷◌, ◌++◌, String,
  or_else, get_or, if◌then◌else◌, ◌==◌, eq_iff, length, arith,
}
use angelus.Prelude.Dict.{Dict, get, get-put}
use angelus.RunGraph.Types.{RunState, RunGraphNode, RunGraph, Value, changed, new_node, ensure_node}
use angelus.RunGraph.Reducer.{
  Event, is_force, data_of, type_of, message_of, agent_of, parent_of, observed, progress,
  set_parent, apply_agent_event, origin_of, FactKind, Activity, activity_of, kind_of, apply_kind,
  apply_journal_event,
}

-- `for event in events: cursor += 1; apply_journal_event(graph, event, cursor=cursor)`
unfoldable pub replay : List Event → ℕ → RunGraph → RunGraph
replay [] cursor graph = graph
replay (event ∷ events) cursor graph =
    replay events (cursor + 1) (apply_journal_event event (cursor + 1) graph)

-- The run state that one fact names, if it is a fact about the run.
abbrev pub state_named : FactKind → Event → Option RunState
state_named FactKind.started event = some RunState.running
state_named FactKind.stop event =
    some
      (if is_force (get "mode" (data_of event)) then RunState.force_stopping else RunState.stopping)
state_named (FactKind.terminal final) event = some final
state_named _ event = none

abbrev pub last_state : List Event → RunState → RunState
last_state [] s = s
last_state (event ∷ events) s =
    last_state events (get_or s (state_named (kind_of (type_of event)) event))

-- A delegation to oneself counts for nothing.
abbrev pub delegating : String → Option String → Option String
delegating agent none = none
delegating agent (some p) = if p == agent then none else some p

abbrev pub delegation : String → Option String → Option String → Option String
delegation n none parent = none
delegation n (some agent) parent = if agent == n then delegating agent parent else none

-- The parent that a fact names for the node `n`.
abbrev pub parent_named : String → FactKind → Event → Option String
parent_named n FactKind.activity event = delegation n (agent_of event) (parent_of (data_of event))
parent_named n _ event = none

abbrev pub last_parent : String → List Event → Option String → Option String
last_parent n [] p = p
last_parent n (event ∷ events) p =
    last_parent n events (or_else (parent_named n (kind_of (type_of event)) event) p)

abbrev pub parent_at : Option RunGraphNode → Option String
parent_at none = none
parent_at (some node) = node.parent_id

-- `graph.nodes[n].parent_id`, and `None` for a node that is not there.
abbrev pub node_parent : String → RunGraph → Option String
node_parent n graph = parent_at (get n graph.nodes)

kind_state :
    (kind : FactKind) (event : Event) (graph : RunGraph)
    → (apply_kind kind event graph).state ≡ get_or graph.state (state_named kind event)
unfolding ensure_node
kind_state FactKind.started event graph = refl
kind_state FactKind.stop event graph = refl
kind_state (FactKind.terminal final) event graph = refl
kind_state FactKind.checkpoint event graph = refl
kind_state FactKind.activity event graph = about (agent_of event)
  where
    about : (agent : Option String) → (apply_agent_event event agent graph).state ≡ graph.state
    about none = refl
    about (some agent) = refl

kind_cursor :
    (kind : FactKind) (event : Event) (graph : RunGraph)
    → (apply_kind kind event graph).event_cursor ≡ graph.event_cursor
unfolding ensure_node
kind_cursor FactKind.started event graph = refl
kind_cursor FactKind.stop event graph = refl
kind_cursor (FactKind.terminal final) event graph = refl
kind_cursor FactKind.checkpoint event graph = refl
kind_cursor FactKind.activity event graph = about (agent_of event)
  where
    about :
        (agent : Option String)
        → (apply_agent_event event agent graph).event_cursor ≡ graph.event_cursor
    about none = refl
    about (some agent) = refl

progress_parent :
    (activity : Activity) (message : String) (payload : Dict Value) (node : RunGraphNode)
    → (progress activity message payload node).parent_id ≡ node.parent_id
progress_parent Activity.dispatched message payload node = refl
progress_parent Activity.succeeds message payload node = refl
progress_parent Activity.fails message payload node = refl
progress_parent Activity.stops message payload node = refl
progress_parent Activity.finalized message payload node = refl
progress_parent Activity.reported message payload node = refl
progress_parent Activity.runs message payload node = refl
progress_parent Activity.unknown message payload node = refl

-- What a node's parent becomes by what `observed` does to the node.
observed_parent :
    (agent : String) (event : Event) (node : RunGraphNode)
    → (observed agent event node).parent_id
      ≡ (set_parent agent (parent_of (data_of event)) node).parent_id
unfolding observed
observed_parent agent event node =
    progress_parent (activity_of (type_of event)) (message_of event) (data_of event) _

set_parent-delegating :
    (agent : String) (p : Option String) (node : RunGraphNode)
    → (set_parent agent p node).parent_id ≡ or_else (delegating agent p) node.parent_id
set_parent-delegating agent none node = refl
set_parent-delegating agent (some p) node = by_name (p == agent)
  where
    by_name :
        (t : Bool)
        → (if t then node else record node { parent_id = some p }).parent_id
          ≡ or_else (if t then none else some p) node.parent_id
    by_name true = refl
    by_name false = refl

fresh_parent :
    (agent : String) (o : Option RunGraphNode) → (get_or (new_node agent) o).parent_id ≡ parent_at o
fresh_parent agent none = refl
fresh_parent agent (some node) = refl

-- A fact about an agent, for the node `n`.
about_parent :
    (n agent : String) (event : Event) (graph : RunGraph)
    → node_parent n (apply_agent_event event (some agent) graph)
      ≡ or_else (delegation n (some agent) (parent_of (data_of event))) (node_parent n graph)
unfolding ensure_node
about_parent n agent event graph =
    rw (get-put n agent (observed agent event (changed (origin_of event) node)) graph.nodes)
      (by_name (agent == n) λ e. ground (arith, eq_iff agent n))
  where
    node : RunGraphNode
    node = get_or (new_node agent) (get agent graph.nodes)

    by_name :
        (t : Bool)
        → (t ≡ true → agent ≡ n)
        → parent_at (
            if t
            then some (observed agent event (changed (origin_of event) node))
            else get n graph.nodes)
          ≡ or_else
              (if t then delegating agent (parent_of (data_of event)) else none)
              (node_parent n graph)
    by_name true e =
        observed_parent agent event (changed (origin_of event) node)
        ∙ set_parent-delegating agent (parent_of (data_of event)) (changed (origin_of event) node)
        ∙ ap (or_else (delegating agent (parent_of (data_of event))))
            (fresh_parent agent (get agent graph.nodes) ∙ ap (λ i. node_parent i graph) (e refl))
    by_name false e = refl

kind_parent :
    (n : String) (kind : FactKind) (event : Event) (graph : RunGraph)
    → node_parent n (apply_kind kind event graph)
      ≡ or_else (parent_named n kind event) (node_parent n graph)
kind_parent n FactKind.started event graph = refl
kind_parent n FactKind.stop event graph = refl
kind_parent n (FactKind.terminal final) event graph = refl
kind_parent n FactKind.checkpoint event graph = refl
kind_parent n FactKind.activity event graph = by_agent (agent_of event)
  where
    by_agent :
        (agent : Option String)
        → node_parent n (apply_agent_event event agent graph)
          ≡ or_else (delegation n agent (parent_of (data_of event))) (node_parent n graph)
    by_agent none = refl
    by_agent (some agent) = about_parent n agent event graph

-- After the replay of a journal, from a graph whose cursor is the start, the run state is the
-- one that the journal's last fact about the run names, the cursor counts the records, and a
-- node's parent is the last one that a fact about the node names.
pub replay_lem :
    (n : String) (events : List Event) (cursor : ℕ) (graph : RunGraph)
    → graph.event_cursor ≡ cursor
    → ((replay events cursor graph).state ≡ last_state events graph.state)
      × ((replay events cursor graph).event_cursor ≡ cursor + length events)
      × (node_parent n (replay events cursor graph) ≡ last_parent n events (node_parent n graph))
unfolding replay apply_journal_event
replay_lem n [] cursor graph e = (refl, omega (arith, e), refl)
replay_lem n (event ∷ events) cursor graph e =
    let moved : RunGraph = record graph { event_cursor = cursor + 1 } in
    let kind = kind_of (type_of event) in
    let (state, count, parent) =
      replay_lem n events (cursor + 1) (apply_kind kind event moved)
        (kind_cursor kind event moved) in
    (
      state ∙ ap (last_state events) (kind_state kind event moved),
      omega (arith, count),
      parent ∙ ap (last_parent n events) (kind_parent n kind event moved),
    )

-- A replay in two parts, the second of which resumes at the cursor of the first, is the replay of
-- the whole journal.
pub replay-append :
    (earlier later : List Event) (cursor : ℕ) (graph : RunGraph)
    → replay (earlier ++ later) cursor graph
      ≡ replay later (cursor + length earlier) (replay earlier cursor graph)
unfolding replay
replay-append [] later cursor graph = ap (λ c. replay later c graph) (omega arith)
replay-append (event ∷ earlier) later cursor graph =
    replay-append earlier later (cursor + 1) (apply_journal_event event (cursor + 1) graph)
    ∙ ap
        (λ c.
          replay later c
            (replay earlier (cursor + 1) (apply_journal_event event (cursor + 1) graph)))
        (omega arith)
