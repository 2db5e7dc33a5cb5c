-- ===== src/RunGraph/Tests.antt =====
-- A short journal, and the theorems on its replay applied to it.
use angelus.Prelude.{
  ℕ, Option, err, ◌+◌, ◌≡◌, refl, some, none, List, [], ◌∷◌, ◌++◌, String, length, map, take, ltb,
  ok, Result,
}
use angelus.RunGraph.Types.{RunState, RunGraph, Value, ensure_node, add_edge}
use angelus.RunGraph.Reducer.{Event, observed, apply_journal_event}
use angelus.RunGraph.Replay.{
  replay, last_state, node_parent, last_parent, replay_lem, replay-append,
}
use angelus.RunGraph.Snapshots.{
  Snapshot, hydrated, hydrate_nodes, hydrate_edges, apply_run_graph_snapshot,
}
use angelus.RunGraph.Attempts.{Line, fact, blank, mappings, replay_attempt, refused, Evidence}
use angelus.RunGraph.Events.{RunGraphPage, ProjectionError, page_size, events, run_graph_event}
use angelus.RunGraph.Resume.{resumed_from, Adds, replay_attempt-resumes}
use angelus.RunGraph.Feed.{events_behind, events-page}
use angelus.RunGraph.Keyed.{IsKeyed, nodes-IsKeyed}

abbrev event : String → String → List (String × Value) → Event
event kind agent payload = record {
  fields = ("type", Value.text kind) ∷ ("agent", Value.text agent) ∷ [];
  payload = some payload;
}

abbrev graph : RunGraph
graph = record {
  session_id = "s";
  execution_id = some "e";
  attempt = 1;
  state = RunState.idle;
  nodes = [];
  edges = [];
  event_cursor = 0;
  started_at = none;
  finished_at = none;
  error = none;
  stop_reason = none;
  checkpoint = none;
}

abbrev journal : List Event
journal =
    event "execution_started" "" []
    ∷ event "task:dispatched" "reader"
        (("task_id", Value.text "t1") ∷ ("reply_to", Value.text "coordinator") ∷ [])
    ∷ event "agent:completed" "reader" []
    ∷ event "execution_completed" "" []
    ∷ []

replay_lem_example :
    ((replay journal 0 graph).state ≡ last_state journal RunState.idle)
    × ((replay journal 0 graph).event_cursor ≡ 0 + length journal)
    × (node_parent "reader" (replay journal 0 graph)
        ≡ last_parent "reader" journal (node_parent "reader" graph))
replay_lem_example = replay_lem "reader" journal 0 graph refl

replay_run :
    ((replay journal 0 graph).state ≡ RunState.completed)
    × (node_parent "reader" (replay journal 0 graph) ≡ some "coordinator")
unfolding replay apply_journal_event ensure_node observed
replay_run = (refl, refl)

replay-append_example :
    replay (journal ++ journal) 0 graph
    ≡ replay journal (0 + length journal) (replay journal 0 graph)
replay-append_example = replay-append journal journal 0 graph

-- A checkpoint with one usable node, one without an id, and an item that is no mapping.
abbrev checkpoint : Snapshot
checkpoint = record {
  fields = ("kind", Value.text "angelus.run-graph") ∷ ("event_cursor", Value.number 4 "4") ∷ [];
  nodes =
      some (("id", Value.text "reader") ∷ ("state", Value.text "running") ∷ [])
      ∷ some (("state", Value.text "failed") ∷ [])
      ∷ none
      ∷ [];
  edges = [];
}

empty-IsKeyed : IsKeyed graph.nodes
empty-IsKeyed = record { own = tt; distinct = tt }

nodes-IsKeyed_example :
    IsKeyed (apply_journal_event (event "agent:failed" "reader" []) 1 graph).nodes
    × IsKeyed (apply_run_graph_snapshot checkpoint graph).nodes
nodes-IsKeyed_example =
    nodes-IsKeyed (event "agent:failed" "reader" []) 1 checkpoint graph empty-IsKeyed

hydrate_run :
    (length (apply_run_graph_snapshot checkpoint graph).nodes ≡ 1)
    × ((apply_run_graph_snapshot checkpoint graph).event_cursor ≡ 4)
unfolding apply_run_graph_snapshot hydrate_nodes hydrate_edges hydrated ensure_node
hydrate_run = (refl, refl)

-- The journal with a line of blanks and a torn line, and no usable checkpoint.
abbrev evidence : Evidence
evidence = record {
  execution_id = "e";
  attempt = 1;
  checkpoint = [];
  payload = none;
  lines = blank ∷ map fact journal ++ refused ∷ [];
}

events-page_example : events "s" (some evidence) 1 2 ≡ (
    let behind = events_behind "s" evidence 1 in
    let page = take (page_size 2) behind in
    ok (record {
      events = page;
      next_cursor = 1 + length page;
      has_more = ltb (page_size 2) (length behind);
      execution_id = "e";
    }))
events-page_example = events-page "s" evidence 1 2

-- The same with a checkpoint behind the second fact, for a caller who has seen it.
abbrev resumed : Evidence
resumed = record evidence {
  payload = some (record {
    fields = ("kind", Value.text "angelus.run-graph") ∷ ("event_cursor", Value.number 2 "2") ∷ [];
    nodes = [];
    edges = [];
  });
  lines = map fact journal;
}

abbrev sequences : Result ProjectionError RunGraphPage → List ℕ
sequences (ok page) = map (λ e. e.sequence) page.events
sequences (err e) = []

events_run :
    (sequences (events "s" (some evidence) 1 2) ≡ 2 ∷ 3 ∷ [])
    × (sequences (events "s" (some resumed) 2 9) ≡ 3 ∷ 4 ∷ [])
    × (sequences (events "s" (some resumed) 1 9) ≡ 2 ∷ 3 ∷ 4 ∷ [])
unfolding events run_graph_event apply_run_graph_snapshot hydrate_nodes hydrate_edges
    apply_journal_event
events_run = (refl, refl, refl)

-- A checkpoint as an Agent's context checkpoint leaves it: its graph has nodes and edges of the live
-- view and the host's own time of the start, and it is committed behind the facts that it counts.
abbrev dispatched : List Line
dispatched =
    fact (event "execution_started" "" [])
    ∷ blank
    ∷ fact (
        event "task:dispatched" "reader"
          (("task_id", Value.text "t1") ∷ ("reply_to", Value.text "coordinator") ∷ []))
    ∷ fact (event "agent:context_checkpoint" "reader" [])
    ∷ []

abbrev rest : List Line
rest =
    fact (event "checkpoint_committed" "" (("generation", Value.text "g1") ∷ []))
    ∷ fact (event "agent:completed" "reader" [])
    ∷ fact (event "execution_completed" "" [])
    ∷ refused
    ∷ []

abbrev live_node : String → String → Option (List (String × Value))
live_node id state = some (
    ("id", Value.text id)
    ∷ ("kind", Value.text "agent")
    ∷ ("origin", Value.text "runtime")
    ∷ ("state", Value.text state)
    ∷ [])

abbrev committed : Snapshot
committed = record {
  fields =
      ("kind", Value.text "angelus.run-graph")
      ∷ ("state", Value.text "running")
      ∷ ("started_at", Value.number 7 "7")
      ∷ ("event_cursor", Value.number 3 "3")
      ∷ [];
  nodes = live_node "coordinator" "running" ∷ live_node "reader" "running" ∷ [];
  edges = some (("source", Value.text "coordinator") ∷ ("target", Value.text "reader") ∷ []) ∷ [];
}

abbrev recovered : Evidence
recovered = record {
  execution_id = "e";
  attempt = 1;
  checkpoint = ("generation", Value.text "g1") ∷ [];
  payload = some committed;
  lines = dispatched ++ rest;
}

committed_cursor : (resumed_from committed recovered graph).event_cursor ≡ 3
unfolding apply_run_graph_snapshot hydrate_nodes hydrate_edges hydrated ensure_node add_edge
committed_cursor = refl

replay_attempt-resumes_example :
    (replay_attempt recovered graph
      ≡ replay (mappings rest) 3 (resumed_from committed recovered graph))
    × Adds "coordinator"
        (mappings rest)
        (resumed_from committed recovered graph)
        (replay_attempt recovered graph)
    × ((replay_attempt recovered graph).event_cursor
        ≡ (replay_attempt (record recovered { payload = none }) graph).event_cursor)
replay_attempt-resumes_example =
    replay_attempt-resumes "coordinator" recovered committed dispatched rest graph refl refl refl
      committed_cursor refl
