-- ===== src/Hub/Tests.antt =====
-- A small hub, and the theorems on its store applied to it.
use angelus.Prelude.{
  ◌≡◌, refl, ok, arith, true, some, none, List, [], ◌∷◌, String, ◌==◌, is_some, if◌then◌else◌,
}
use angelus.Hub.Types.{ExternalAgentAdapterKind, ExternalAgentDefinition}
use angelus.Hub.Store.{get, put, remove}
use angelus.Hub.Finite.{store_lem}
use angelus.Hub.Requests.{IsHub, Request, perform, serve, serve-IsHub}
use angelus.Hub.Service
use angelus.Hub.Types.{ContextPackage, ContextRole}
use angelus.Hub.Codec.{parse_context_package, each, parse_tool, parse_message}
use angelus.Hub.Packages.{IsBounded, parse_context_package-IsBounded}
use angelus.Hub.Documents.{document, parse_context_package-document}
use angelus.Hub.Service.{validate, valid_id, create, replace}

abbrev definition : String → String → ExternalAgentDefinition
definition id title = record {
  id = id;
  title = title;
  adapter_kind = ExternalAgentAdapterKind.opencode;
  endpoint = "";
  connector_id = "";
  enabled = true;
  description = "";
}

abbrev requests : List Request
requests =
    Request.create_request (definition "reader" "Reader")
    ∷ Request.create_request (definition "Reader" "No id")
    ∷ Request.create_request (definition "writer" "Writer")
    ∷ Request.replace_request "reader" (definition "reader" "Second")
    ∷ []

empty-IsHub : IsHub []
empty-IsHub = record { distinct = tt; valid = tt }

serve-IsHub_example : IsHub (serve requests [])
serve-IsHub_example = serve-IsHub requests [] empty-IsHub

serve_run : serve requests [] ≡ definition "writer" "Writer" ∷ definition "reader" "Second" ∷ []
unfolding serve perform create replace validate valid_id get put Service.get
serve_run = refl

store_lem_example :
    (get "reader" (put (definition "writer" "Writer") (definition "reader" "Reader" ∷ [])) ≡ (
      if "writer" == "reader"
      then some (definition "writer" "Writer")
      else get "reader" (definition "reader" "Reader" ∷ [])))
    × (get "reader" (remove "reader" (definition "reader" "Reader" ∷ [])).0
        ≡ (if "reader" == "reader" then none else get "reader" (definition "reader" "Reader" ∷ [])))
    × ((remove "reader" (definition "reader" "Reader" ∷ [])).1
        ≡ is_some (get "reader" (definition "reader" "Reader" ∷ [])))
store_lem_example =
    store_lem "reader" "reader" (definition "writer" "Writer") (definition "reader" "Reader" ∷ [])

abbrev exported : ContextPackage
exported = record {
  format_version = 1;
  source = "angelus";
  source_session_id = "s1";
  source_agent = "main";
  messages =
      record {
        sequence = 3;
        role = ContextRole.assistant;
        content = "done";
        reasoning = "";
        tool_calls = record { name = "read"; arguments_json = ""; result = "ok" } ∷ [];
        created_at = none;
      }
      ∷ [];
  summary = "";
  redactions = "keys" ∷ [];
}

exported-IsBounded : IsBounded exported
exported-IsBounded = omega arith

parse_context_package-document_example : parse_context_package (document exported) ≡ ok exported
parse_context_package-document_example = parse_context_package-document exported exported-IsBounded

exported_parsed : parse_context_package (document exported) ≡ ok exported
unfolding parse_context_package document each parse_tool parse_message
exported_parsed = refl

parse_context_package-IsBounded_example : IsBounded exported
parse_context_package-IsBounded_example =
    parse_context_package-IsBounded (document exported) exported exported_parsed
