-- ===== src/Hub/Store.antt =====
-- store.py: the definitions in the order of the document. The store is the decoded document that
-- the last write left; its JSON form is left out.
use angelus.Prelude.{
  Bool, true, false, not, Option, none, some, List, [], ◌∷◌, ◌++◌, String, ◌==◌, if◌then◌else◌, leb,
  length, keep,
}
use angelus.Hub.Types.{ExternalAgentDefinition}

abbrev pub ExternalAgentHubStore : Type 0
ExternalAgentHubStore = List ExternalAgentDefinition

-- `get`: the first definition with the id.
unfoldable pub get : String → ExternalAgentHubStore → Option ExternalAgentDefinition
get agent_id [] = none
get agent_id (item ∷ items) = if item.id == agent_id then some item else get agent_id items

abbrev pub others : String → ExternalAgentHubStore → ExternalAgentHubStore
others agent_id items = keep (λ item. not (item.id == agent_id)) items

-- `put`: the definition goes to the end.
unfoldable pub put : ExternalAgentDefinition → ExternalAgentHubStore → ExternalAgentHubStore
put definition items = others definition.id items ++ definition ∷ []

-- `remove`, with its result.
unfoldable pub remove : String → ExternalAgentHubStore → ExternalAgentHubStore × Bool
remove agent_id items =
    let remaining = others agent_id items in
    if leb (length items) (length remaining) then (items, false) else (remaining, true)
