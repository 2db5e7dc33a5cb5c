-- ===== src/Tools/Grants.antt =====
-- From a persisted profile to what an Agent may use.
use angelus.Prelude.{
  ◌≡◌, refl, ◌∙◌, Bool, true, false, ◌&&◌, ◌||◌, not, Option, none, some, List, [], ◌∷◌, String,
  ◌==◌, arith, if◌then◌else◌, any, mem, mem-append, unique, mem-unique_from,
}
use text.Mathlib.Text.{starts_with}
use angelus.Tools.Policy.{
  Grant, RawGrants, legacy_tool_ids, canonical_category, is_enabled, granted_categories,
  granted_tools, from_profile, allows,
}

-- Some enabled entry of the profile stands for the tool, under its own or a former name.
abbrev pub tool_enabled : String → Option (List (String × Grant)) → Bool
tool_enabled t none = false
tool_enabled t (some entries) = any (λ e. is_enabled e.1 && mem t (legacy_tool_ids e.0)) entries

-- Some enabled entry of the profile stands for the category.
abbrev pub category_enabled : String → Option (List (String × Grant)) → Bool
category_enabled c none = false
category_enabled c (some entries) = any (λ e. is_enabled e.1 && canonical_category e.0 == c) entries

mem-granted_tools :
    (t : String) (es : List (String × Grant)) → mem t (granted_tools es) ≡ tool_enabled t (some es)
unfolding granted_tools
mem-granted_tools t [] = refl
mem-granted_tools t ((name, Grant.enabled) ∷ es) =
    mem-append t (legacy_tool_ids name) (granted_tools es) ∙ rw (mem-granted_tools t es)
mem-granted_tools t ((name, Grant.other) ∷ es) = mem-granted_tools t es

mem-granted_categories :
    (c : String) (es : List (String × Grant))
    → mem c (granted_categories es) ≡ category_enabled c (some es)
unfolding granted_categories
mem-granted_categories c [] = refl
mem-granted_categories c ((name, Grant.enabled) ∷ es) = rw (mem-granted_categories c es)
mem-granted_categories c ((name, Grant.other) ∷ es) = mem-granted_categories c es

-- The tests of `allows` in the order of the code, and as one disjunction.
granted_or :
    (own retrieval files dotted plugin tool : Bool)
    → ((if not (if retrieval && files then true else own) && dotted && plugin
          then true
          else if retrieval && files
          then true
          else own)
        && tool)
      ≡ ((own || retrieval && files || dotted && plugin) && tool)
granted_or own retrieval files dotted plugin tool = ground arith

module _ (raw : RawGrants) where
  from_profile_tools :
      (t : String) → mem t (from_profile (some raw)).tools ≡ tool_enabled t raw.tools
  unfolding from_profile
  from_profile_tools t = part raw.tools
    where
      part :
          (o : Option (List (String × Grant)))
          → mem t (elim o [ none ↦ [] | some es ↦ unique (granted_tools es) ]) ≡ tool_enabled t o
      part none = refl
      part (some es) = mem-unique_from t [] (granted_tools es) ∙ mem-granted_tools t es

  from_profile_categories :
      (c : String) → mem c (from_profile (some raw)).categories ≡ category_enabled c raw.categories
  unfolding from_profile
  from_profile_categories c = part raw.categories
    where
      part :
          (o : Option (List (String × Grant)))
          → mem c (elim o [ none ↦ [] | some es ↦ unique (granted_categories es) ])
            ≡ category_enabled c o
      part none = refl
      part (some es) = mem-unique_from c [] (granted_categories es) ∙ mem-granted_categories c es

  -- The policy of a profile allows a tool exactly if the profile enables the tool, under its own
  -- or a former name, and enables its category, under its own name, as `context`, through
  -- `file_discovery` for `project_retrieval`, or through `plugin` for a `plugin.` category.
  pub allows-from_profile :
      (category_id tool_id : String)
      → allows (from_profile (some raw)) category_id tool_id ≡ (
          (category_enabled category_id raw.categories
            || category_id == "project_retrieval"
              && category_enabled "file_discovery" raw.categories
            || starts_with category_id "plugin." && category_enabled "plugin" raw.categories)
          && tool_enabled tool_id raw.tools)
  unfolding allows
  allows-from_profile c t = rw (from_profile_tools t) (
      rw (from_profile_categories c) (
        rw (from_profile_categories "file_discovery") (
          rw (from_profile_categories "plugin") (
            granted_or (category_enabled c raw.categories) (c == "project_retrieval")
              (category_enabled "file_discovery" raw.categories) (starts_with c "plugin.")
              (category_enabled "plugin" raw.categories) (tool_enabled t raw.tools)))))
