-- ===== src/Hub/Types.antt =====
-- models.py: what the hub stores and what its adapters exchange.
use angelus.Prelude.{ℕ, Bool, Option, List, String}
use angelus.Settings.Json.{ℤ}

-- `ExternalAgentAdapterKind`, which `_adapter_kind` and `_KINDS` spell out again.
pub data ExternalAgentAdapterKind : Type 0 where
  codex_app_server claude_sdk coze opencode workbuddy custom : ExternalAgentAdapterKind

pub data ExternalAgentHealthStatus : Type 0 where
  unknown healthy unavailable unsupported : ExternalAgentHealthStatus

pub data ContextRole : Type 0 where
  system user assistant tool : ContextRole

pub data ContextTransferDirection : Type 0 where
  imported exported : ContextTransferDirection

pub data InvocationMode : Type 0 where
  as_tool as_run : InvocationMode

pub record ContextToolCall : Type 0 where
  pub name : String
  pub arguments_json : String
  pub result : String

pub record ContextMessage : Type 0 where
  pub sequence : ℕ
  pub role : ContextRole
  pub content : String
  pub reasoning : String
  pub tool_calls : List ContextToolCall
  pub created_at : Option ℤ

pub record ExternalAgentContext : Type 0 where
  pub agent_id : String
  pub external_id : String
  pub title : String
  pub updated_at : Option ℕ
  pub message_count : Option ℕ

pub record ContextPage : Type 0 where
  pub items : List ExternalAgentContext
  pub next_cursor : Option String
  pub has_more : Bool

pub record ContextPackage : Type 0 where
  pub format_version : ℕ
  pub source : String
  pub source_session_id : String
  pub source_agent : String
  pub messages : List ContextMessage
  pub summary : String
  pub redactions : List String

pub record ContextTransferResult : Type 0 where
  pub direction : ContextTransferDirection
  pub agent_id : String
  pub context_id : String
  pub accepted_messages : ℕ
  pub rejected_messages : ℕ
  pub detail : String

pub record ExternalAgentDefinition : Type 0 where
  pub id : String
  pub title : String
  pub adapter_kind : ExternalAgentAdapterKind
  pub endpoint : String
  pub connector_id : String
  pub enabled : Bool
  pub description : String

pub record ExternalAgentHealth : Type 0 where
  pub agent_id : String
  pub adapter_kind : ExternalAgentAdapterKind
  pub status : ExternalAgentHealthStatus
  pub message : String

pub record ExternalAgentCapability : Type 0 where
  pub id : String
  pub title : String
  pub description : String
  pub invocation_mode : InvocationMode

pub record ExternalAgentSession : Type 0 where
  pub agent_id : String
  pub external_id : String
  pub title : String
  pub status : String
  pub updated_at : Option ℕ
  pub project_path : String
