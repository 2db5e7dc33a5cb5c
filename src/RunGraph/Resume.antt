-- ===== src/RunGraph/Resume.antt =====
-- The replay of an attempt's journal that resumes at a checkpoint.
use angelus.Prelude.{
  ◌+◌, subst, length-append, String, ℕ, zero, suc, ◌≡◌, refl, ap, sym, ◌∙◌, Bool, true, false, none,
  some, List, [], ◌∷◌, ◌++◌, arith, length, all,
}
use angelus.RunGraph.Types.{RunGraph, Value}
use angelus.Prelude.Dict.{Dict}
use angelus.RunGraph.Snapshots.{Snapshot, apply_run_graph_snapshot}
use angelus.RunGraph.Reducer.{Event}
use angelus.RunGraph.Replay.{replay, replay_lem, last_state, node_parent, last_parent}
use angelus.RunGraph.Attempts.{
  Line, fact, blank, refused, mappings, events_of, Evidence, with_checkpoint, replay_attempt,
}

-- A line of blanks, or a record.
abbrev pub is_whole : Line → Bool
is_whole refused = false
is_whole blank = true
is_whole (fact event) = true

mappings-append :
    (earlier later : List Line) → mappings (earlier ++ later) ≡ mappings earlier ++ mappings later
mappings-append [] later = refl
mappings-append (fact event ∷ earlier) later = ap (λ t. event ∷ t) (mappings-append earlier later)
mappings-append (blank ∷ earlier) later = mappings-append earlier later
mappings-append (refused ∷ earlier) later = mappings-append earlier later

-- Skipping as many lines as there are records in a prefix without a torn line skips its records.
events_of-prefix :
    (earlier later : List Line)
    → all is_whole earlier ≡ true
    → events_of (length (mappings earlier)) (earlier ++ later) ≡ mappings later
events_of-prefix [] later whole = refl
events_of-prefix (fact event ∷ earlier) later whole = events_of-prefix earlier later whole
events_of-prefix (blank ∷ earlier) later whole =
    skip_blank (length (mappings earlier)) ∙ events_of-prefix earlier later whole
  where
    skip_blank : (n : ℕ) → events_of n (blank ∷ earlier ++ later) ≡ events_of n (earlier ++ later)
    skip_blank zero = refl
    skip_blank (suc n) = refl
events_of-prefix (refused ∷ earlier) later whole = ground arith

with_checkpoint-cursor :
    (fields : Dict Value) (graph : RunGraph)
    → (with_checkpoint fields graph).event_cursor ≡ graph.event_cursor
with_checkpoint-cursor [] graph = refl
with_checkpoint-cursor (field ∷ fields) graph = refl

-- The graph that the checkpoint leaves, before any fact is replayed.
abbrev pub resumed_from : Snapshot → Evidence → RunGraph → RunGraph
resumed_from payload evidence graph =
    apply_run_graph_snapshot payload (with_checkpoint evidence.checkpoint graph)

-- What a replay makes of a graph by these facts: the cursor counts them, and the run state and the
-- parent of the node `n` are the last ones that they name.
abbrev pub Adds : String → List Event → RunGraph → RunGraph → Type 0
Adds n facts before after =
    (after.event_cursor ≡ before.event_cursor + length facts)
    × (after.state ≡ last_state facts before.state)
    × (node_parent n after ≡ last_parent n facts (node_parent n before))

replay-Adds :
    (n : String) (facts : List Event) (cursor : ℕ) (graph : RunGraph)
    → graph.event_cursor ≡ cursor
    → Adds n facts graph (replay facts cursor graph)
replay-Adds n facts cursor graph at =
    let (state, count, parent) = replay_lem n facts cursor graph at in
    (omega (arith, count, at), state, parent)

-- If the event cursor of a usable checkpoint counts the facts in the journal's first lines, and
-- none of these lines is torn, then the replay that resumes at the checkpoint applies exactly
-- the facts of the later lines to the graph that the checkpoint holds, whatever nodes, edges
-- and times that graph has: the run state and a node's parent are the last ones that these
-- facts name, or else the checkpoint's, and, for a graph at cursor 0, the cursor ends where it
-- does for the replay of the whole journal without the checkpoint.
pub replay_attempt-resumes :
    (n : String) (evidence : Evidence) (payload : Snapshot) (earlier later : List Line)
    (graph : RunGraph)
    → evidence.payload ≡ some payload
    → evidence.lines ≡ earlier ++ later
    → all is_whole earlier ≡ true
    → (resumed_from payload evidence graph).event_cursor ≡ length (mappings earlier)
    → graph.event_cursor ≡ 0
    → (replay_attempt evidence graph
        ≡ replay (mappings later) (length (mappings earlier)) (resumed_from payload evidence graph))
      × Adds n
          (mappings later)
          (resumed_from payload evidence graph)
          (replay_attempt evidence graph)
      × ((replay_attempt evidence graph).event_cursor
          ≡ (replay_attempt (record evidence { payload = none }) graph).event_cursor)
replay_attempt-resumes n evidence payload earlier later graph loaded file whole counted at =
    rw (loaded, file) (skips, added, omega (arith, added.0, counted, all_facts, fresh))
  where
    hydrated : RunGraph
    hydrated = resumed_from payload evidence graph

    resumed : RunGraph
    resumed =
        replay (events_of hydrated.event_cursor (earlier ++ later)) hydrated.event_cursor hydrated

    skips : resumed ≡ replay (mappings later) (length (mappings earlier)) hydrated
    skips =
        ap (λ c. replay (events_of c (earlier ++ later)) c hydrated) counted
        ∙ ap (λ es. replay es (length (mappings earlier)) hydrated)
            (events_of-prefix earlier later whole)

    added : Adds n (mappings later) hydrated resumed
    added =
        subst (Adds n (mappings later) hydrated) (sym skips)
          (replay-Adds n (mappings later) (length (mappings earlier)) hydrated counted)

    all_facts :
        length (mappings (earlier ++ later)) ≡ length (mappings earlier) + length (mappings later)
    all_facts =
        ap length (mappings-append earlier later)
        ∙ length-append (mappings earlier) (mappings later)

    fresh :
        (replay
          (mappings (earlier ++ later))
          0
          (with_checkpoint evidence.checkpoint graph)).event_cursor
        ≡ 0 + length (mappings (earlier ++ later))
    fresh =
        (replay_lem n (mappings (earlier ++ later)) 0 (with_checkpoint evidence.checkpoint graph)
          (with_checkpoint-cursor evidence.checkpoint graph ∙ at)).1
