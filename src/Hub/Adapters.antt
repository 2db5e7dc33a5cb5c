-- ===== src/Hub/Adapters.antt =====
-- adapter.py: the registry of protocol adapters. An adapter is an object of the host: a record of
-- its operations, each of which may raise.
use angelus.Prelude.{
  ℕ, Bool, true, false, Option, none, some, List, [], ◌∷◌, ◌++◌, String, if◌then◌else◌, Result, ok,
  err,
}
use angelus.Hub.Types.{
  ExternalAgentAdapterKind, codex_app_server, claude_sdk, coze, opencode, workbuddy, custom,
  ExternalAgentHealthStatus, ContextPage, ContextPackage, ContextTransferResult,
  ExternalAgentCapability, ExternalAgentDefinition, ExternalAgentHealth, ExternalAgentSession,
}

-- What an adapter raises: an `ExternalAgentAdapterFailure` with its text, or anything else.
pub data Raised : Type 0 where
  failure : String → Raised
  unexpected : Raised

-- What the registry and the service raise.
pub data HubError : Type 0 where
  adapter_failure : String → HubError
  value_error : HubError
  key_error : String → HubError

pub record ExternalAgentAdapter : Type 0 where
  pub kind : ExternalAgentAdapterKind
  pub health : ExternalAgentDefinition → Result Raised ExternalAgentHealth
  pub discover_capabilities : ExternalAgentDefinition → Result Raised (List ExternalAgentCapability)
  pub discover_sessions : ExternalAgentDefinition → ℕ → Result Raised (List ExternalAgentSession)
  pub list_contexts : ExternalAgentDefinition → Option String → ℕ → Result Raised ContextPage
  pub read_context : ExternalAgentDefinition → String → Result Raised ContextPackage
  pub write_context : ExternalAgentDefinition → ContextPackage → Result Raised ContextTransferResult

abbrev pub same_kind : ExternalAgentAdapterKind → ExternalAgentAdapterKind → Bool
same_kind codex_app_server codex_app_server = true
same_kind claude_sdk claude_sdk = true
same_kind coze coze = true
same_kind opencode opencode = true
same_kind workbuddy workbuddy = true
same_kind custom custom = true
same_kind _ _ = false

-- `adapters`, in the order of registration.
abbrev pub ExternalAgentAdapterRegistry : Type 0
ExternalAgentAdapterRegistry = List ExternalAgentAdapter

-- `self.adapters.get(kind)`
unfoldable pub find :
    ExternalAgentAdapterKind → ExternalAgentAdapterRegistry → Option ExternalAgentAdapter
find kind [] = none
find kind (a ∷ adapters) = if same_kind a.kind kind then some a else find kind adapters

abbrev pub added :
    ExternalAgentAdapter
    → ExternalAgentAdapterRegistry
    → Option ExternalAgentAdapter
    → Result HubError ExternalAgentAdapterRegistry
added adapter adapters none = ok (adapters ++ adapter ∷ [])
added adapter adapters (some _) = err HubError.value_error

unfoldable pub register :
    ExternalAgentAdapter
    → ExternalAgentAdapterRegistry
    → Result HubError ExternalAgentAdapterRegistry
register adapter adapters = added adapter adapters (find adapter.kind adapters)

-- `except Exception as exc: raise ExternalAgentAdapterFailure(text)`
abbrev pub wrapped : {A : Type 0} → String → Result Raised A → Result HubError A
wrapped text (ok a) = ok a
wrapped text (err _) = err (HubError.adapter_failure text)

-- The same behind `except ExternalAgentAdapterFailure: raise`.
abbrev pub rewrapped : {A : Type 0} → String → Result Raised A → Result HubError A
rewrapped text (ok a) = ok a
rewrapped text (err (Raised.failure own)) = err (HubError.adapter_failure own)
rewrapped text (err Raised.unexpected) = err (HubError.adapter_failure text)

module _ (d : ExternalAgentDefinition) where
  abbrev pub observed_health : Option ExternalAgentAdapter → ExternalAgentHealth
  observed_health none = record {
    agent_id = d.id;
    adapter_kind = d.adapter_kind;
    status = ExternalAgentHealthStatus.unsupported;
    message = "The selected protocol adapter is not installed yet.";
  }
  observed_health (some a) = safe (a.health d)
    where
      safe : Result Raised ExternalAgentHealth → ExternalAgentHealth
      safe (ok h) = h
      safe (err _) = record {
        agent_id = d.id;
        adapter_kind = d.adapter_kind;
        status = ExternalAgentHealthStatus.unavailable;
        message = "The protocol adapter could not complete its health check.";
      }

  unfoldable pub health : ExternalAgentAdapterRegistry → ExternalAgentHealth
  health adapters = observed_health (find d.adapter_kind adapters)

  abbrev pub capabilities_of :
      Option ExternalAgentAdapter → Result HubError (List ExternalAgentCapability)
  capabilities_of none = ok []
  capabilities_of (some a) =
      wrapped "external Agent capability discovery failed" (a.discover_capabilities d)

  unfoldable pub capabilities :
      ExternalAgentAdapterRegistry → Result HubError (List ExternalAgentCapability)
  capabilities adapters = capabilities_of (find d.adapter_kind adapters)

  abbrev pub sessions_of :
      ℕ → Option ExternalAgentAdapter → Result HubError (List ExternalAgentSession)
  sessions_of limit none = ok []
  sessions_of limit (some a) =
      wrapped "external Agent session discovery failed" (a.discover_sessions d limit)

  unfoldable pub sessions :
      ℕ → ExternalAgentAdapterRegistry → Result HubError (List ExternalAgentSession)
  sessions limit adapters = sessions_of limit (find d.adapter_kind adapters)

  abbrev pub contexts_of :
      Option String → ℕ → Option ExternalAgentAdapter → Result HubError ContextPage
  contexts_of cursor limit none =
      err (HubError.adapter_failure "external Agent context listing is not supported")
  contexts_of cursor limit (some a) =
      rewrapped "external Agent context listing failed" (a.list_contexts d cursor limit)

  unfoldable pub contexts :
      Option String → ℕ → ExternalAgentAdapterRegistry → Result HubError ContextPage
  contexts cursor limit adapters = contexts_of cursor limit (find d.adapter_kind adapters)

  abbrev pub package_of : String → Option ExternalAgentAdapter → Result HubError ContextPackage
  package_of context_id none =
      err (HubError.adapter_failure "external Agent context reading is not supported")
  package_of context_id (some a) =
      rewrapped "external Agent context reading failed" (a.read_context d context_id)

  unfoldable pub read_context :
      String → ExternalAgentAdapterRegistry → Result HubError ContextPackage
  read_context context_id adapters = package_of context_id (find d.adapter_kind adapters)

  abbrev pub transfer_of :
      ContextPackage → Option ExternalAgentAdapter → Result HubError ContextTransferResult
  transfer_of envelope none =
      err (HubError.adapter_failure "external Agent context writing is not supported")
  transfer_of envelope (some a) =
      rewrapped "external Agent context writing failed" (a.write_context d envelope)

  unfoldable pub write_context :
      ContextPackage → ExternalAgentAdapterRegistry → Result HubError ContextTransferResult
  write_context envelope adapters = transfer_of envelope (find d.adapter_kind adapters)
