-- ===== src/Plugins/Manifest.antt =====
-- manifest.py: assets, themes, panels, permissions and the whole manifest.
use angelus.Prelude.{
  ℕ, Bool, true, false, not, ◌&&◌, ◌||◌, Option, none, some, List, [], ◌∷◌, String, ◌==◌, is_empty,
  if◌then◌else◌, leb, any, mem, ok, err, ◌>>=◌, ◌>>◌, raise_if, get_or,
}
use angelus.Settings.Json.{Json, boolean, text, array, object, nil, end, Members, get}
use angelus.Plugins.Types.{
  manifest_error, Decoded, PluginKind, ThemeMode, PluginPermission, PluginTheme, PluginPanel,
  PluginManifest,
}
use angelus.Plugins.Patterns.{valid_name, valid_version, valid_entry, valid_asset, climbs, is_css}
use angelus.Plugins.Values.{
  size, text_of, mapping_of, sequence_of, bool_of, hashed_text, reject_unknown, plain, text_field,
  collect,
}
use angelus.Plugins.Fields.{lookup, is_null, each_json}
use angelus.Plugins.Forms.{settings, panel_fields}

abbrev pub is_kind : PluginKind → PluginKind → Bool
is_kind PluginKind.tool PluginKind.tool = true
is_kind PluginKind.ui PluginKind.ui = true
is_kind PluginKind.theme_pack PluginKind.theme_pack = true
is_kind PluginKind.tool PluginKind.ui = false
is_kind PluginKind.tool PluginKind.theme_pack = false
is_kind PluginKind.ui PluginKind.tool = false
is_kind PluginKind.ui PluginKind.theme_pack = false
is_kind PluginKind.theme_pack PluginKind.tool = false
is_kind PluginKind.theme_pack PluginKind.ui = false

unfoldable pub kind_named : String → Decoded PluginKind
kind_named t =
    if t == "tool"
    then ok PluginKind.tool
    else if t == "ui"
    then ok PluginKind.ui
    else if t == "theme_pack"
    then ok PluginKind.theme_pack
    else err manifest_error

unfoldable pub mode_named : String → Decoded ThemeMode
mode_named t =
    if t == "dark"
    then ok ThemeMode.dark
    else if t == "light"
    then ok ThemeMode.light
    else err manifest_error

-- A text of one to `maximum` characters.
unfoldable pub bounded : ℕ → Json → Decoded String
unfolding text_of
bounded maximum j = do
  t ← text_of j
  raise_if (is_empty t || not (leb (size t) maximum)) manifest_error
  ok t

unfoldable pub permission : Json → Decoded PluginPermission
unfolding mapping_of bounded
permission j = do
  raw ← mapping_of j
  action ← bounded 80 (lookup "action" raw)
  scope ← bounded 500 (lookup "scope" raw)
  ok (record { action = action; scope = scope })

-- `_permissions`
unfoldable pub permissions : Json → Decoded (List PluginPermission)
unfolding sequence_of permission each_json
permissions j = sequence_of j >>= λ items. each_json permission items

unfoldable pub asset : List String → Json → Decoded String
unfolding text_of
asset assets j = do
  path ← text_of j
  raise_if (not (valid_asset path) || climbs path) manifest_error
  raise_if (mem path assets) manifest_error
  ok path

-- `_assets`
unfoldable pub assets : Json → Decoded (List String)
unfolding sequence_of collect asset
assets j = sequence_of j >>= λ items. collect asset [] items

unfoldable pub theme : List String → List PluginTheme → Json → Decoded PluginTheme
unfolding mapping_of text_of bounded hashed_text mode_named
theme whitelist themes j = do
  raw ← mapping_of j
  id ← text_of (lookup "id" raw)
  raise_if (not (valid_name id)) manifest_error
  title ← bounded 120 (lookup "title" raw)
  path ← text_of (lookup "asset" raw)
  raise_if (not (mem path whitelist) || not (is_css path)) manifest_error
  name ← hashed_text (lookup "mode" raw)
  mode ← mode_named name
  raise_if (any (λ t. t.id == id) themes) manifest_error
  ok (record { id = id; title = title; asset = path; mode = mode })

abbrev pub is_nil {ℓ} : {A : Type ℓ} → List A → Bool
is_nil [] = true
is_nil (_ ∷ _) = false

-- `_themes`
unfoldable pub themes : Json → List String → PluginKind → Decoded (List PluginTheme)
unfolding sequence_of collect theme
themes j whitelist kind = do
  items ← sequence_of j
  result ← collect (theme whitelist) [] items
  raise_if (is_kind kind PluginKind.theme_pack && is_nil result) manifest_error
  raise_if (not (is_kind kind PluginKind.theme_pack) && not (is_nil result)) manifest_error
  ok result

abbrev pub or_text : String → String → String
or_text t d = if is_empty t then d else t

abbrev pub panel_keys : List String
panel_keys = "id" ∷ "title" ∷ "description" ∷ "action" ∷ "submit_label" ∷ "fields" ∷ []

unfoldable pub entry_of : PluginKind → Json → Decoded (Option String)
unfolding text_of
entry_of kind j =
    if is_kind kind PluginKind.tool
    then (text_of j >>= λ entry.
        raise_if (not (valid_entry entry)) manifest_error >> ok (some entry))
    else if is_null j
    then ok none
    else err manifest_error

abbrev pub manifest_keys : List String
manifest_keys =
    "name" ∷ "display_name" ∷ "version" ∷ "api_version" ∷ "kind" ∷ "entry" ∷ "description"
    ∷ "permissions" ∷ "frontend" ∷ "settings_schema" ∷ []

-- `is_digit` is what `\d` matches, `greater` Python's `>` on numbers.
module _ (is_digit : ℕ → Bool) (greater : Json → Json → Bool) where
  -- One turn of the loop of `_panels`.
  unfoldable pub panel : List PluginPanel → Json → Decoded PluginPanel
  unfolding mapping_of reject_unknown text_of plain panel_fields
  panel panels j = do
    raw ← mapping_of j
    reject_unknown panel_keys raw
    id ← text_of (lookup "id" raw)
    raise_if (not (valid_name id)) manifest_error
    action ← text_of (lookup "action" raw)
    raise_if (not (valid_name action)) manifest_error
    raise_if (any (λ p. p.id == id) panels) manifest_error
    raise_if (any (λ p. p.action == action) panels) manifest_error
    fields ← panel_fields greater (get_or (array nil) (get "fields" raw))
    title ← plain 120 (lookup "title" raw)
    description ← plain 1000 (lookup "description" raw)
    label ← plain 120 (lookup "submit_label" raw)
    ok (record {
      id = id;
      title = or_text title id;
      description = description;
      action = action;
      submit_label = or_text label "Run";
      fields = fields;
    })

  -- `_panels`
  unfoldable pub panels : Json → Decoded (List PluginPanel)
  unfolding sequence_of collect panel
  panels j = sequence_of j >>= λ items. collect panel [] items

  -- `_decode_manifest`
  unfoldable pub decode_manifest : Members → Decoded PluginManifest
  unfolding reject_unknown text_field text_of hashed_text kind_named entry_of mapping_of bool_of
      assets themes panels permissions settings
  decode_manifest raw = do
    reject_unknown manifest_keys raw
    name ← text_field "name" true 64 raw
    raise_if (not (valid_name name)) manifest_error
    version ← text_field "version" true 32 raw
    raise_if (not (valid_version is_digit version)) manifest_error
    api_version ← text_field "api_version" true 16 raw
    raise_if (not (api_version == "1")) manifest_error
    kind_name ← hashed_text (get_or (text "tool") (get "kind" raw))
    kind ← kind_named kind_name
    entry ← entry_of kind (lookup "entry" raw)
    frontend ← mapping_of (get_or (object end) (get "frontend" raw))
    reject_unknown ("assets" ∷ "settings" ∷ "themes" ∷ "panels" ∷ []) frontend
    whitelist ← assets (get_or (array nil) (get "assets" frontend))
    skins ← themes (get_or (array nil) (get "themes" frontend)) whitelist kind
    forms ← panels (get_or (array nil) (get "panels" frontend))
    raise_if (not (is_nil forms) && not (is_kind kind PluginKind.tool)) manifest_error
    enabled ← bool_of (get_or (boolean false) (get "settings" frontend))
    schema ← settings greater (get_or (array nil) (get "settings_schema" raw))
    raise_if (not (is_nil schema) && not enabled) manifest_error
    display_name ← text_field "display_name" false 120 raw
    description ← text_field "description" false 2000 raw
    grants ← permissions (get_or (array nil) (get "permissions" raw))
    ok (record {
      name = name;
      display_name = or_text display_name name;
      version = version;
      api_version = api_version;
      kind = kind;
      entry = entry;
      description = description;
      permissions = grants;
      assets = whitelist;
      settings_enabled = enabled;
      settings_schema = schema;
      themes = skins;
      panels = forms;
    })
