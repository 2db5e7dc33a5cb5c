-- ===== src/Hub/Service.antt =====
-- service.py: validation, the rules of each operation, and the calls of the adapters.
use angelus.Prelude.{
  ℕ, Bool, true, false, not, ◌&&◌, ◌||◌, Option, none, some, List, [], ◌∷◌, String, ◌==◌, is_empty,
  is_some, is_blank, ltb, leb, length, all, any, codes, Result, ok, err, ◌>>=◌, ◌>>◌, raise_if,
}
use angelus.Hub.Types.{
  ContextPage, ContextPackage, ContextTransferResult, ExternalAgentCapability,
  ExternalAgentDefinition, ExternalAgentHealth, ExternalAgentSession,
}
use angelus.Hub.Store.{ExternalAgentHubStore}
use angelus.Hub.Store
use angelus.Hub.Adapters.{HubError, ExternalAgentAdapterRegistry}
use angelus.Hub.Adapters

abbrev is_lower : ℕ → Bool
is_lower c = leb b'a' c && leb c b'z'

abbrev is_id_char : ℕ → Bool
is_id_char c =
    is_lower c || leb b'0' c && leb c b'9' || leb b'_' c && leb c b'_' || leb b'-' c && leb c b'-'

abbrev id_matches : List ℕ → Bool
id_matches [] = false
id_matches (c ∷ cs) = is_lower c && leb 1 (length cs) && leb (length cs) 63 && all is_id_char cs

-- `_ID.fullmatch(definition.id)`
unfoldable pub valid_id : String → Bool
valid_id id = id_matches (codes id)

abbrev pub too_long : ℕ → String → Bool
too_long limit s = ltb limit (length (codes s))

-- `_validate`: that the kind is a known one is in its type.
unfoldable pub validate : ExternalAgentDefinition → Result HubError (Unit {0})
validate d = do
  raise_if (not (valid_id d.id)) HubError.value_error
  raise_if (is_empty d.title || too_long 120 d.title) HubError.value_error
  raise_if (any (too_long 2000) (d.endpoint ∷ d.connector_id ∷ d.description ∷ []))
      HubError.value_error

abbrev pub or_key_error :
    String → Option ExternalAgentDefinition → Result HubError ExternalAgentDefinition
or_key_error agent_id none = err (HubError.key_error agent_id)
or_key_error agent_id (some d) = ok d

unfoldable pub get : String → ExternalAgentHubStore → Result HubError ExternalAgentDefinition
get agent_id store = or_key_error agent_id (Store.get agent_id store)

unfoldable pub create :
    ExternalAgentDefinition → ExternalAgentHubStore → Result HubError ExternalAgentHubStore
create d store = do
  validate d
  raise_if (is_some (Store.get d.id store)) HubError.value_error
  ok (Store.put d store)

unfoldable pub replace :
    String → ExternalAgentDefinition → ExternalAgentHubStore → Result HubError ExternalAgentHubStore
replace agent_id d store = do
  raise_if (not (agent_id == d.id)) HubError.value_error
  _ ← get agent_id store
  validate d
  ok (Store.put d store)

abbrev pub removed : String → ExternalAgentHubStore × Bool → Result HubError ExternalAgentHubStore
removed agent_id (store, true) = ok store
removed agent_id (_, false) = err (HubError.key_error agent_id)

unfoldable pub remove : String → ExternalAgentHubStore → Result HubError ExternalAgentHubStore
remove agent_id store = removed agent_id (Store.remove agent_id store)

-- `not 1 <= limit <= 200`
abbrev pub bad_limit : ℕ → Bool
bad_limit limit = not (leb 1 limit && leb limit 200)

module _ (agent_id : String) (store : ExternalAgentHubStore)
    (adapters : ExternalAgentAdapterRegistry) where
  unfoldable pub health : Result HubError ExternalAgentHealth
  health = do d ← get agent_id store; ok (Adapters.health d adapters)

  unfoldable pub capabilities : Result HubError (List ExternalAgentCapability)
  capabilities = do d ← get agent_id store; Adapters.capabilities d adapters

  unfoldable pub sessions : ℕ → Result HubError (List ExternalAgentSession)
  sessions limit = do
    raise_if (bad_limit limit) HubError.value_error
    d ← get agent_id store
    Adapters.sessions d limit adapters

  unfoldable pub contexts : Option String → ℕ → Result HubError ContextPage
  contexts cursor limit = do
    raise_if (bad_limit limit) HubError.value_error
    d ← get agent_id store
    Adapters.contexts d cursor limit adapters

  unfoldable pub read_context : String → Result HubError ContextPackage
  read_context context_id = do
    raise_if (is_blank context_id) HubError.value_error
    d ← get agent_id store
    Adapters.read_context d context_id adapters

  unfoldable pub write_context : ContextPackage → Result HubError ContextTransferResult
  write_context envelope = do d ← get agent_id store; Adapters.write_context d envelope adapters
