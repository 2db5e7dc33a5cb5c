-- ===== src/RunGraph/Attempts.antt =====
-- projection.py: the journal and the checkpoint of an attempt, and the replay of its graph. A journal
-- that cannot be opened has no lines.
use angelus.Prelude.{ℕ, zero, suc, Option, none, some, List, [], ◌∷◌, String}
use angelus.Prelude.Dict.{Dict}
use angelus.RunGraph.Types.{RunGraph, Value}
use angelus.RunGraph.Reducer.{Event}
use angelus.RunGraph.Snapshots.{Snapshot, apply_run_graph_snapshot}
use angelus.RunGraph.Replay.{replay}

-- A line of the journal as `json.loads` takes it: a mapping, a line of blanks, or anything else.
pub data Line : Type 0 where
  fact : Event → Line
  blank refused : Line

-- The first loop of `_events`: lines of blanks are not counted.
abbrev pub skip_lines : ℕ → List Line → List Line
skip_lines zero lines = lines
skip_lines (suc n) [] = []
skip_lines (suc n) (blank ∷ lines) = skip_lines (suc n) lines
skip_lines (suc n) (fact event ∷ lines) = skip_lines n lines
skip_lines (suc n) (refused ∷ lines) = skip_lines n lines

-- The second loop.
abbrev pub mappings : List Line → List Event
mappings [] = []
mappings (fact event ∷ lines) = event ∷ mappings lines
mappings (blank ∷ lines) = mappings lines
mappings (refused ∷ lines) = mappings lines

abbrev pub events_of : ℕ → List Line → List Event
events_of skip lines = mappings (skip_lines skip lines)

-- What the directory of an attempt holds: `execution_id` and `attempt` of the manifest, its
-- `checkpoint` if that is a mapping, the payload of the checkpoint if it is usable, and the journal.
pub record Evidence : Type 0 where
  pub execution_id : String
  pub attempt : ℕ
  pub checkpoint : Dict Value
  pub payload : Option Snapshot
  pub lines : List Line

-- `_replay_prefix`: the number of lines to skip is the cursor.
abbrev pub replay_prefix : Option Snapshot → RunGraph → RunGraph × ℕ
replay_prefix none graph = (graph, 0)
replay_prefix (some payload) graph =
    let hydrated = apply_run_graph_snapshot payload graph in (hydrated, hydrated.event_cursor)

abbrev pub with_checkpoint : Dict Value → RunGraph → RunGraph
with_checkpoint [] graph = graph
with_checkpoint (field ∷ fields) graph = record graph { checkpoint = some (field ∷ fields) }

-- `_replay`
abbrev pub replay_attempt : Evidence → RunGraph → RunGraph
replay_attempt evidence graph =
    let (hydrated, cursor) =
      replay_prefix evidence.payload (with_checkpoint evidence.checkpoint graph) in
    replay (events_of cursor evidence.lines) cursor hydrated
