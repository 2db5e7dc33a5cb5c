-- ===== src/Tools/Tests.antt =====
-- Small registries and a profile, and the theorems of this part applied to them.
use angelus.Prelude.{
  ◌+◌, ◌≡◌, ◌&&◌, ◌||◌, some, List, [], ◌∷◌, ◌++◌, String, ◌==◌, Ensures, mem, IsUnique,
}
use angelus.Prelude.Dict.{values}
use text.Mathlib.Text.{starts_with}
use angelus.Tools.Policy.{Grant, RawGrants, from_profile, allows}
use angelus.Tools.Registry.{
  ToolProviderRegistration, ToolRegistry, empty, register, unregister, materialize,
}
use angelus.Tools.Lifecycle.{register-unregister}
use angelus.Tools.Materialize.{names, offered, materialize-names}
use angelus.Tools.Grants.{category_enabled, tool_enabled, allows-from_profile}
use angelus.Tools.Contexts.{
  ContextProviderRegistration, ContextProviderRequest, ContextProviderRegistry, contribution,
  materialize-register,
}
use angelus.Tools.Contexts

-- A provider is here the list of the names of its tools.
abbrev files : ToolProviderRegistration (List String)
files = record {
  id = "files";
  provider = "read_file" ∷ "write_file" ∷ [];
  categories = record { id = "file_rw"; title = "Files"; description = "" } ∷ [];
  definitions =
      record {
        id = "read_file";
        category_id = "file_rw";
        title = "Read";
        description = "";
        provider_id = "files";
        roles = [];
      }
      ∷ [];
}

abbrev search : ToolProviderRegistration (List String)
search = record {
  id = "search";
  provider = "find" ∷ "read_file" ∷ [];
  categories = [];
  definitions = [];
}

abbrev registry : ToolRegistry (List String)
registry = record {
  providers = ("search", search) ∷ ("files", files) ∷ [];
  categories = [];
  definitions = [];
  revision = 2;
}

register-unregister_example :
    Ensures
      (λ h. unregister "files" h ≡ record (empty {P = List String}) {
        revision = (empty {P = List String}).revision + 1 + 1;
      })
      (register files empty)
register-unregister_example = register-unregister files empty

materialize-names_example :
    IsUnique (names (λ t. t) (λ p. p) (materialize (λ t. t) (λ p. p) registry))
    × ((x : String)
        → mem x (names (λ t. t) (λ p. p) (materialize (λ t. t) (λ p. p) registry))
          ≡ mem x (offered (λ t. t) (λ p. p) (values registry.providers)))
materialize-names_example = materialize-names (λ t. t) (λ p. p) registry

abbrev grants : RawGrants
grants = record {
  categories = some (("file_discovery", Grant.enabled) ∷ ("mcp", Grant.other) ∷ []);
  tools = some (("plan_upsert", Grant.enabled) ∷ []);
}

allows-from_profile_example :
    allows (from_profile (some grants)) "project_retrieval" "set_task_plan" ≡ (
      (category_enabled "project_retrieval" grants.categories
        || "project_retrieval" == "project_retrieval"
          && category_enabled "file_discovery" grants.categories
        || starts_with "project_retrieval" "plugin." && category_enabled "plugin" grants.categories)
      && tool_enabled "set_task_plan" grants.tools)
allows-from_profile_example = allows-from_profile grants "project_retrieval" "set_task_plan"

-- A factory is here the source that it builds.
abbrev notes : ContextProviderRegistration String
notes = record {
  id = "notes";
  factory = "notes";
  roles = "coordinator" ∷ [];
  gates = ("note", "read_note") ∷ [];
}

abbrev request : ContextProviderRequest
request = record {
  policy = record { categories = "note" ∷ []; tools = "read_note" ∷ [] };
  role = "coordinator";
}

abbrev build : String → ContextProviderRequest → List String
build f q = f ∷ []

materialize-register_example :
    Ensures
      (λ h.
        Contexts.materialize build request h
        ≡ Contexts.materialize build request [] ++ contribution build request notes)
      (Contexts.register notes [])
materialize-register_example = materialize-register build request notes []
