-- ===== src/Tools/Policy.antt =====
-- tool_policy.py: persisted grants, their migration, and what they allow.
use angelus.Prelude.{
  Bool, true, false, ◌&&◌, not, Option, none, some, List, [], ◌∷◌, ◌++◌, String, ◌==◌,
  if◌then◌else◌, mem, unique,
}
use text.Mathlib.Text.{starts_with}

-- The value of a grant in the profile: `True`, or anything else.
pub data Grant : Type 0 where
  enabled : Grant
  other : Grant

-- The raw `tool_permissions` field: the entries with text keys of each part that is a mapping, and
-- nothing for a part that is not.
pub record RawGrants : Type 0 where
  pub categories : Option (List (String × Grant))
  pub tools : Option (List (String × Grant))

-- Sets of texts, in the order of insertion.
pub record ToolPolicy : Type 0 where
  pub categories : List String
  pub tools : List String

-- `_LEGACY_TOOL_IDS.get(name, (name,))`, with a single name as a tuple of one.
unfoldable pub legacy_tool_ids : String → List String
legacy_tool_ids name =
    if name == "plan_upsert"
    then "set_task_plan" ∷ "update_task_status" ∷ []
    else if name == "plan_read"
    then "read_task_plan" ∷ []
    else if name == "dynamic_add_connection"
    then "swarm_connect" ∷ []
    else if name == "dynamic_remove_connection"
    then "swarm_disconnect" ∷ []
    else if name == "dynamic_set_mapper"
    then "swarm_set_mapper" ∷ []
    else if name == "dynamic_set_router"
    then "swarm_set_router" ∷ []
    else name ∷ []

abbrev pub canonical_category : String → String
canonical_category name = if name == "context" then "context_version" else name

abbrev pub is_enabled : Grant → Bool
is_enabled enabled = true
is_enabled other = false

unfoldable pub granted_categories : List (String × Grant) → List String
granted_categories [] = []
granted_categories ((name, g) ∷ rest) =
    (if is_enabled g then canonical_category name ∷ [] else []) ++ granted_categories rest

unfoldable pub granted_tools : List (String × Grant) → List String
granted_tools [] = []
granted_tools ((name, g) ∷ rest) =
    (if is_enabled g then legacy_tool_ids name else []) ++ granted_tools rest

abbrev pub from_part :
    (List (String × Grant) → List String) → Option (List (String × Grant)) → List String
from_part f none = []
from_part f (some entries) = unique (f entries)

-- `none` where the field is not a mapping.
unfoldable pub from_profile : Option RawGrants → ToolPolicy
from_profile none = record { categories = []; tools = [] }
from_profile (some raw) = record {
  categories = from_part granted_categories raw.categories;
  tools = from_part granted_tools raw.tools;
}

-- Whether the category is granted, the two former category names included.
abbrev pub category_granted : ToolPolicy → String → Bool
category_granted policy category_id =
    let direct =
      if category_id == "project_retrieval" && mem "file_discovery" policy.categories
      then true
      else mem category_id policy.categories in
    if not direct && starts_with category_id "plugin." && mem "plugin" policy.categories
    then true
    else direct

unfoldable pub allows : ToolPolicy → String → String → Bool
allows policy category_id tool_id = category_granted policy category_id && mem tool_id policy.tools
