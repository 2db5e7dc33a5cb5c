-- ===== src/Tools/Registry.antt =====
-- tool_registry.py: registration, removal and materialization of tool providers.
use angelus.Prelude.{
  ℕ, ◌+◌, Bool, ◌||◌, not, Option, none, some, List, [], ◌∷◌, ◌++◌, String, ◌==◌, is_empty,
  if◌then◌else◌, length, any, keep, mem, unique, Result, ok, ◌>>◌, raise_if, ltb,
}
use angelus.Prelude.Dict.{Dict, get, contains, put, pop, pop_all, values, update}
use angelus.Tools.Types.{ToolCategory, ToolDefinition, ToolCatalogCategory, ToolCatalog}

-- The checks of `register`, in their order.
pub data RegistryError : Type 0 where
  duplicate_provider invalid_categories duplicate_category : RegistryError
  invalid_tools duplicate_tool foreign_definition : RegistryError

-- A provider is an object of the host: `P` stands for it.
pub record ToolProviderRegistration {ℓ} (P : Type ℓ) : Type ℓ where
  pub id : String
  pub provider : P
  pub categories : List ToolCategory
  pub definitions : List ToolDefinition

pub record ToolRegistry {ℓ} (P : Type ℓ) : Type ℓ where
  pub providers : Dict (ToolProviderRegistration P)
  pub categories : Dict ToolCategory
  pub definitions : Dict ToolDefinition
  pub revision : ℕ

abbrev pub category_ids : List ToolCategory → List String
category_ids [] = []
category_ids (c ∷ cs) = c.id ∷ category_ids cs

abbrev pub definition_ids : List ToolDefinition → List String
definition_ids [] = []
definition_ids (d ∷ ds) = d.id ∷ definition_ids ds

abbrev pub by_category_id : List ToolCategory → Dict ToolCategory
by_category_id [] = []
by_category_id (c ∷ cs) = (c.id, c) ∷ by_category_id cs

abbrev pub by_definition_id : List ToolDefinition → Dict ToolDefinition
by_definition_id [] = []
by_definition_id (d ∷ ds) = (d.id, d) ∷ by_definition_id ds

-- `len(set(ids)) != len(ids) or any(not item for item in ids)`
abbrev pub malformed : List String → Bool
malformed ids = ltb (length (unique ids)) (length ids) || any is_empty (unique ids)

-- A definition that belongs to another provider or to a category that is not registered with it.
abbrev pub is_foreign : String → List String → ToolDefinition → Bool
is_foreign provider_id ids d = not (d.provider_id == provider_id) || not (mem d.category_id ids)

module _ {P : Type 0} where
  unfoldable pub empty : ToolRegistry P
  empty = record { providers = []; categories = []; definitions = []; revision = 0 }

  unfoldable pub register :
      ToolProviderRegistration P → ToolRegistry P → Result RegistryError (ToolRegistry P)
  register r g = do
    raise_if (contains r.id g.providers) duplicate_provider
    raise_if (malformed (category_ids r.categories)) invalid_categories
    raise_if (any (λ id. contains id g.categories) (unique (category_ids r.categories)))
        duplicate_category
    raise_if (malformed (definition_ids r.definitions)) invalid_tools
    raise_if (any (λ id. contains id g.definitions) (unique (definition_ids r.definitions)))
        duplicate_tool
    raise_if (any (is_foreign r.id (unique (category_ids r.categories))) r.definitions)
        foreign_definition
    ok (record {
      providers = put r.id r g.providers;
      categories = update g.categories (by_category_id r.categories);
      definitions = update g.definitions (by_definition_id r.definitions);
      revision = g.revision + 1;
    })

  abbrev pub drop_registration :
      String → ToolRegistry P → Option (ToolProviderRegistration P) → ToolRegistry P
  drop_registration id g none = g
  drop_registration id g (some r) = record {
    providers = pop id g.providers;
    categories = pop_all (category_ids r.categories) g.categories;
    definitions = pop_all (definition_ids r.definitions) g.definitions;
    revision = g.revision + 1;
  }

  -- A provider that is not registered is accepted and changes nothing.
  unfoldable pub unregister : String → ToolRegistry P → ToolRegistry P
  unregister id g = drop_registration id g (get id g.providers)

-- `catalog`: each category with its definitions, in the order of registration.
abbrev pub tools_of : String → List ToolDefinition → List ToolDefinition
tools_of category_id = keep (λ d. d.category_id == category_id)

abbrev pub catalog_categories : List ToolDefinition → List ToolCategory → List ToolCatalogCategory
catalog_categories ds [] = []
catalog_categories ds (c ∷ cs) =
    record { id = c.id; title = c.title; description = c.description; tools = tools_of c.id ds }
    ∷ catalog_categories ds cs

module _ {P : Type 0} where
  unfoldable pub catalog : ToolRegistry P → ToolCatalog
  catalog g = record {
    categories = catalog_categories (values g.definitions) (values g.categories);
    revision = g.revision;
  }

-- `materialize`: what a provider builds for the Session, policy and role is the parameter `provided`;
-- of a tool the registry reads the name. The first tool of each name is kept.
module _ {P T : Type 0} (name : T → String) (provided : P → List T) where
  unfoldable pub take_new : List T → List T → List String → List T × List String
  take_new [] tools seen = (tools, seen)
  take_new (t ∷ ts) tools seen =
      let skipped = take_new ts tools seen in
      let taken = take_new ts (tools ++ t ∷ []) (seen ++ name t ∷ []) in
      if mem (name t) seen then skipped else taken

  unfoldable pub materialize_from :
      List (ToolProviderRegistration P) → List T → List String → List T
  unfolding take_new
  materialize_from [] tools seen = tools
  materialize_from (r ∷ rs) tools seen =
      let (tools', seen') = take_new (provided r.provider) tools seen in
      materialize_from rs tools' seen'

  unfoldable pub materialize : ToolRegistry P → List T
  unfolding materialize_from
  materialize g = materialize_from (values g.providers) [] []
