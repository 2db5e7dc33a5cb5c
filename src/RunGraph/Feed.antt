-- ===== src/RunGraph/Feed.antt =====
-- The pages of run graph events against the list of all events that a journal is projected to.
use angelus.Prelude.{
  ℕ, zero, suc, ◌+◌, ◌-◌, ◌≤◌, ◌≡◌, refl, ap, sym, ◌∙◌, true, false, some, List, [], ◌∷◌, ◌++◌,
  String, arith, if◌then◌else◌, ltb, leb, length, take, drop, length-append, ok, Bool, Result,
}
use mathlib.Core.List.{append_assoc, append-nil}
use angelus.RunGraph.Types.{RunGraph}
use angelus.RunGraph.Reducer.{Event, apply_journal_event}
use angelus.RunGraph.Attempts.{Evidence, events_of, replay_prefix}
use angelus.RunGraph.Events.{
  RunGraphEvent, projected, page_loop, seed, page_size, new_graph, events, ProjectionError,
  RunGraphPage,
}

-- All the events that the records are projected to, in their order.
abbrev pub all_events : ℕ → RunGraph → List Event → List RunGraphEvent
all_events sequence graph [] = []
all_events sequence graph (event ∷ events) =
    projected event (sequence + 1) graph
    ∷ all_events (sequence + 1) (apply_journal_event event (sequence + 1) graph) events

same_page :
    {page page' : List RunGraphEvent} {more more' : Bool}
    → page ≡ page'
    → more ≡ more'
    → ◌≡◌ {A = List RunGraphEvent × Bool} (page, more) (page', more')
same_page {page} {more' = more'} p q = ap (λ m. (page, m)) q ∙ ap (λ l. (l, more')) p

ltb-suc : (m n : ℕ) → ltb (suc m) (suc n) ≡ ltb m n
ltb-suc m n = ground arith

none_left : (n : ℕ) → false ≡ ltb n 0
none_left n = ground arith

take-nil : (n : ℕ) → [] ≡ take {A = RunGraphEvent} n []
take-nil zero = refl
take-nil (suc n) = refl

-- The loop once the page has begun, with room for so many events.
page_loop-begun :
    (start maximum sequence : ℕ) (graph : RunGraph) (page : List RunGraphEvent) (room : ℕ)
    (facts : List Event)
    → start ≤ sequence
    → length page + room ≡ maximum
    → page_loop start maximum sequence graph page facts ≡ (
      page ++ take room (all_events sequence graph facts),
      ltb room (length (all_events sequence graph facts)),
    )
page_loop-begun start maximum sequence graph page zero [] at full =
    same_page (sym (append-nil page)) refl
page_loop-begun start maximum sequence graph page (suc room) [] at full =
    same_page (sym (append-nil page)) (none_left (suc room))
page_loop-begun start maximum sequence graph page zero (event ∷ facts) at full =
    let filled : leb maximum (length page) ≡ true = ground (arith, full) in
    rw filled (same_page (sym (append-nil page)) (ground arith))
page_loop-begun start maximum sequence graph page (suc room) (event ∷ facts) at full =
    let more : leb maximum (length page) ≡ false = ground (arith, full) in
    let reached : leb (sequence + 1) start ≡ false = ground (arith, at) in
    let one = projected event (sequence + 1) graph in
    let next = apply_journal_event event (sequence + 1) graph in
    let later = all_events (sequence + 1) next facts in
    rw more (
      rw reached (
        page_loop-begun start maximum (sequence + 1) next (page ++ one ∷ []) room facts
          (omega (arith, at)) (omega (arith, full, length-append page (one ∷ [])))
        ∙ same_page (append_assoc page (one ∷ []) (take room later))
            (sym (ltb-suc room (length later)))))

-- The loop while so many events are passed over.
page_loop-passing :
    (start maximum sequence : ℕ) (graph : RunGraph) (passed : ℕ) (facts : List Event)
    → sequence + passed ≡ start
    → 1 ≤ maximum
    → page_loop start maximum sequence graph [] facts ≡ (
      take maximum (drop passed (all_events sequence graph facts)),
      ltb maximum (length (drop passed (all_events sequence graph facts))),
    )
page_loop-passing start maximum sequence graph zero facts at positive =
    page_loop-begun start maximum sequence graph [] maximum facts (omega (arith, at)) (omega arith)
page_loop-passing start maximum sequence graph (suc passed) [] at positive =
    same_page (take-nil maximum) (none_left maximum)
page_loop-passing start maximum sequence graph (suc passed) (event ∷ facts) at positive =
    let more : leb maximum 0 ≡ false = ground (arith, positive) in
    let before : leb (sequence + 1) start ≡ true = ground (arith, at) in
    rw more (
      rw before (
        page_loop-passing start maximum (sequence + 1)
          (apply_journal_event event (sequence + 1) graph) passed facts (omega (arith, at))
          positive))

-- The cursor of the seed lies before the events that are asked for.
seed_within :
    (session_id : String) (evidence : Evidence) (start : ℕ)
    → (seed session_id evidence start).1 ≤ start
seed_within session_id evidence start = within (replay_prefix evidence.payload fresh)
  where
    fresh : RunGraph
    fresh = new_graph session_id evidence

    within : (p : RunGraph × ℕ) → (if ltb start p.1 then (fresh, 0) else p).1 ≤ start
    within p = by_test (ltb start p.1) refl
      where
        by_test : (t : Bool) → ltb start p.1 ≡ t → (if t then (fresh, 0) else p).1 ≤ start
        by_test true e = omega arith
        by_test false e = ground (arith, e)

-- The events that the journal holds behind the caller's cursor.
abbrev pub events_behind : String → Evidence → ℕ → List RunGraphEvent
events_behind session_id evidence start =
    let (graph, cursor) = seed session_id evidence start in
    drop (start - cursor) (all_events cursor graph (events_of cursor evidence.lines))

abbrev served : Evidence → ℕ → List RunGraphEvent × Bool → Result ProjectionError RunGraphPage
served evidence start (page, more) = ok (record {
  events = page;
  next_cursor = start + length page;
  has_more = more;
  execution_id = evidence.execution_id;
})

-- A page of run graph events holds the first events behind the caller's cursor, as many as the
-- bounded limit, of the list of all events that the journal is projected to from the graph that
-- the page starts from; it says that there are more exactly if there are, and names the cursor
-- behind its last event.
pub events-page :
    (session_id : String) (evidence : Evidence) (start limit : ℕ)
    → events session_id (some evidence) start limit ≡ (
        let behind = events_behind session_id evidence start in
        let page = take (page_size limit) behind in
        ok (record {
          events = page;
          next_cursor = start + length page;
          has_more = ltb (page_size limit) (length behind);
          execution_id = evidence.execution_id;
        }))
unfolding events
events-page session_id evidence start limit =
    let (graph, cursor) = seed session_id evidence start in
    ap (served evidence start) (
      page_loop-passing start (page_size limit) cursor graph (start - cursor)
        (events_of cursor evidence.lines) (omega (arith, seed_within session_id evidence start))
        (ground arith))
