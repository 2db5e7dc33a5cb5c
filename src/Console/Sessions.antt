-- ===== src/Console/Sessions.antt =====
-- Sequences of topology requests against one Session's console state.
use angelus.Prelude.{refl, List, [], ◌∷◌, String, Result, ok, err, Ensures}
use angelus.Console.Types.{ConsoleError, ConsoleBlueprint, ConsoleState}
use angelus.Console.Topology
use angelus.Console.Integrity.{IsSound, add_worker-IsSound, remove_worker-IsSound}
use angelus.Console.Connections.{
  add_connection-IsSound, remove_connection-IsSound, mapper-IsSound, router-IsSound,
}

-- The calls that a client makes on the topology of a `ConsoleState`.
pub data Request : Type 0 where
  add_worker : String → String → Request
  remove_worker : String → Request
  add_connection remove_connection : String → String → Request
  mapper : String → String → Request
  router : String → List String → Request

unfoldable pub perform : Request → ConsoleState → Result ConsoleError ConsoleState
perform (add_worker name prompt) = Topology.add_worker name prompt
perform (remove_worker name) = Topology.remove_worker name
perform (add_connection source target) = Topology.add_connection source target
perform (remove_connection source target) = Topology.remove_connection source target
perform (mapper agent mode) = Topology.mapper agent mode
perform (router agent targets) = Topology.router agent targets

-- A request that raises leaves the state as it was.
abbrev pub settle : ConsoleState → Result ConsoleError ConsoleState → ConsoleState
settle s (ok t) = t
settle s (err _) = s

unfoldable pub serve : List Request → ConsoleState → ConsoleState
unfolding perform
serve [] s = s
serve (r ∷ rs) s = serve rs (settle s (perform r s))

abbrev pub fresh : ConsoleState
fresh =
    let b : ConsoleBlueprint = record {
      workers = [];
      connections = [];
      mappers = [];
      routers = [];
      plans = [];
    } in
    record { blueprint = b; saved = b }

pub fresh-IsSound : IsSound fresh
fresh-IsSound = (
  record {
    acyclic = λ a b l. cc;
    distinct = tt;
    ends = λ x y l. cc;
    mapped = λ k h. cc;
    routed = λ k h. cc;
    targets = λ k x ts g m. cc;
    named = λ k h. cc;
  },
  refl,
)

perform-IsSound : (r : Request) (s : ConsoleState) → IsSound s → Ensures IsSound (perform r s)
unfolding perform
perform-IsSound (add_worker name prompt) = add_worker-IsSound name prompt
perform-IsSound (remove_worker name) = remove_worker-IsSound name
perform-IsSound (add_connection source target) = add_connection-IsSound source target
perform-IsSound (remove_connection source target) = remove_connection-IsSound source target
perform-IsSound (mapper agent mode) = mapper-IsSound agent mode
perform-IsSound (router agent targets) = router-IsSound agent targets

settle-IsSound :
    (s : ConsoleState) (r : Result ConsoleError ConsoleState)
    → IsSound s
    → Ensures IsSound r
    → IsSound (settle s r)
settle-IsSound s (ok t) h e = e
settle-IsSound s (err _) h e = h

-- Whatever topology requests are served, refused ones included, the connections of a Session
-- stay acyclic and distinct, every name that a connection, mapper or router uses is a node,
-- every worker's name is valid, and the saved document is the state in memory, if all this held
-- before.
pub serve-IsSound : (rs : List Request) (s : ConsoleState) → IsSound s → IsSound (serve rs s)
unfolding serve
serve-IsSound [] s h = h
serve-IsSound (r ∷ rs) s h =
    serve-IsSound rs (settle s (perform r s))
      (settle-IsSound s (perform r s) h (perform-IsSound r s h))
