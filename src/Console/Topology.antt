-- ===== src/Console/Topology.antt =====
-- The operations of `class ConsoleState` on workers, connections, mappers and routers.
use angelus.Prelude.{
  ℕ, zero, suc, Bool, true, false, ◌&&◌, ◌||◌, not, Option, none, some, List, [], ◌∷◌, ◌++◌, String,
  ◌==◌, if◌then◌else◌, leb, length, any, all, keep, mem, set_add, unique, get_or, Result, ok, err,
  ◌>>◌, raise_if, codes,
}
use angelus.Prelude.Dict.{Dict, get, contains, put, pop}
use angelus.Console.Types.{
  ConsoleError, bad_name, agent_exists, coordinator_fixed, unknown_agent, self_link,
  connection_exists, creates_cycle, no_connection, bad_mapper, out_of_fuel, ConnectionBlueprint,
  same_connection, ConsoleBlueprint, ConsoleState,
}

abbrev is_letter : ℕ → Bool
is_letter c = leb b'A' c && leb c b'Z' || leb b'a' c && leb c b'z'

abbrev is_name_char : ℕ → Bool
is_name_char c =
    is_letter c || leb b'0' c && leb c b'9' || leb b'_' c && leb c b'_' || leb b'-' c && leb c b'-'

abbrev name_matches : List ℕ → Bool
name_matches [] = false
name_matches (c ∷ cs) = is_letter c && leb (length cs) 63 && all is_name_char cs

-- `NAME.fullmatch(name)`
unfoldable pub valid_name : String → Bool
valid_name name = name_matches (codes name)

unfoldable pub save : ConsoleState → ConsoleState
save s = record s { saved = s.blueprint }

-- What the operations do last: the new blueprint is stored and saved.
abbrev pub commit : ConsoleState → ConsoleBlueprint → ConsoleState
unfolding save
commit s b = save (record s { blueprint = b })

-- `replace`: a captured blueprint is restored and persisted.
unfoldable pub replace : ConsoleBlueprint → ConsoleState → ConsoleState
unfolding save
replace b s = commit s b

unfoldable pub add_worker : String → String → ConsoleState → Result ConsoleError ConsoleState
unfolding save
add_worker name system_prompt s = do
  raise_if (not (valid_name name) || name == "coordinator") bad_name
  raise_if (contains name s.blueprint.workers) agent_exists
  ok (
      commit s (record s.blueprint {
        workers =
            put name (record { name = name; system_prompt = system_prompt; role = "worker" })
              s.blueprint.workers;
      }))

abbrev pub touches : String → ConnectionBlueprint → Bool
touches name edge = edge.source == name || edge.target == name

-- The loop over `tuple(routers.items())`, which rewrites every target list.
abbrev pub drop_target : String → Dict (List String) → Dict (List String)
drop_target name [] = []
drop_target name ((source, targets) ∷ d) =
    (source, keep (λ target. not (target == name)) targets) ∷ drop_target name d

unfoldable pub remove_worker : String → ConsoleState → Result ConsoleError ConsoleState
unfolding save
remove_worker name s = do
  raise_if (name == "coordinator") coordinator_fixed
  raise_if (not (contains name s.blueprint.workers)) unknown_agent
  ok (
      commit s (record {
        workers = pop name s.blueprint.workers;
        connections = keep (λ edge. not (touches name edge)) s.blueprint.connections;
        mappers = pop name s.blueprint.mappers;
        routers = drop_target name (pop name s.blueprint.routers);
        plans = s.blueprint.plans;
      }))

-- `name in self._nodes()`
abbrev pub is_node : ConsoleBlueprint → String → Bool
is_node b name = name == "coordinator" || contains name b.workers

-- `adjacency.setdefault(item.source, set()).add(item.target)`, over the connections.
unfoldable pub adjacency_from : Dict (List String) → List ConnectionBlueprint → Dict (List String)
adjacency_from d [] = d
adjacency_from d (e ∷ es) =
    adjacency_from (put e.source (set_add e.target (get_or [] (get e.source d))) d) es

-- `stack.extend(ts)`; the head of the model's stack is the end of the list, where `pop` takes.
unfoldable pub extend : List String → List String → List String
extend [] stack = stack
extend (t ∷ ts) stack = extend ts (t ∷ stack)

-- The `while stack` loop: `some true` where it raises, `none` where the fuel ran out.
unfoldable pub visit : ℕ → Dict (List String) → String → List String → List String → Option Bool
visit zero adjacency source stack seen = none
visit (suc fuel) adjacency source [] seen = some false
visit (suc fuel) adjacency source (current ∷ stack) seen =
    let rest =
      visit fuel adjacency source
        (if mem current seen then stack else extend (get_or [] (get current adjacency)) stack)
        (if mem current seen then seen else current ∷ seen) in
    if current == source then some true else rest

-- A connection leads to one push at most, so that many rounds and two more are enough.
unfoldable pub would_cycle : List ConnectionBlueprint → String → String → Option Bool
would_cycle es source target =
    visit (suc (suc (length es))) (adjacency_from [] es) source (target ∷ []) []

abbrev pub connect :
    ConsoleState → ConnectionBlueprint → Option Bool → Result ConsoleError ConsoleState
unfolding save
connect s edge none = err out_of_fuel
connect s edge (some true) = err creates_cycle
connect s edge (some false) =
    ok (commit s (record s.blueprint { connections = s.blueprint.connections ++ edge ∷ [] }))

unfoldable pub add_connection : String → String → ConsoleState → Result ConsoleError ConsoleState
unfolding save
add_connection source target s = do
  raise_if (not (is_node s.blueprint source) || not (is_node s.blueprint target)) unknown_agent
  raise_if (source == target) self_link
  let edge : ConnectionBlueprint = record { source = source; target = target }
  raise_if (any (same_connection edge) s.blueprint.connections) connection_exists
  connect s edge (would_cycle s.blueprint.connections source target)

-- `connections.remove(edge)`: the first occurrence goes.
unfoldable pub remove_first :
    ConnectionBlueprint → List ConnectionBlueprint → List ConnectionBlueprint
remove_first edge [] = []
remove_first edge (e ∷ es) = if same_connection edge e then es else e ∷ remove_first edge es

unfoldable pub remove_connection : String → String → ConsoleState → Result ConsoleError ConsoleState
unfolding save
remove_connection source target s = do
  let edge : ConnectionBlueprint = record { source = source; target = target }
  raise_if (not (any (same_connection edge) s.blueprint.connections)) no_connection
  ok (commit s (record s.blueprint { connections = remove_first edge s.blueprint.connections }))

abbrev mapper_mode : String → Bool
mapper_mode mode = mode == "concat" || mode == "json" || mode == "labelled"

unfoldable pub mapper : String → String → ConsoleState → Result ConsoleError ConsoleState
unfolding save
mapper agent mode s = do
  raise_if (not (mapper_mode mode)) bad_mapper
  raise_if (not (is_node s.blueprint agent)) unknown_agent
  ok (commit s (record s.blueprint { mappers = put agent mode s.blueprint.mappers }))

unfoldable pub router : String → List String → ConsoleState → Result ConsoleError ConsoleState
unfolding save
router agent targets s = do
  raise_if
      (not (is_node s.blueprint agent) || any (λ target. not (is_node s.blueprint target)) targets)
      unknown_agent
  ok (commit s (record s.blueprint { routers = put agent (unique targets) s.blueprint.routers }))
