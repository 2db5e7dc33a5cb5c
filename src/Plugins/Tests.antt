-- ===== src/Plugins/Tests.antt =====
-- Manifests of small plugins, and the theorems applied to them. The tests compare no bounds.
use angelus.Prelude.{
  ℕ, ◌≡◌, refl, Bool, true, false, ◌&&◌, none, some, [], ◌∷◌, leb, ok, err, inl, inr, IsUnique,
}
use angelus.Settings.Json.{Json, boolean, text, array, object, nil, cons, Members, end, member}
use angelus.Plugins.Types.{
  PluginError, type_error, PluginKind, ValueType, ValueFormat, PluginManifest,
}
use angelus.Plugins.Patterns.{
  valid_name, valid_key, credential_shaped, valid_version, valid_entry, split_at,
}
use angelus.Plugins.Values.{collect}
use angelus.Plugins.Fields.{each_json}
use angelus.Plugins.Forms.{panel_field, panel_fields}
use angelus.Plugins.Manifest.{panel, panels, decode_manifest}
use angelus.Plugins.Discovery.{
  Reading, Package, load_manifest, rescan_from, rescan, invalid, found_as,
}
use angelus.Plugins.Accepted.{IsSound}
use angelus.Plugins.Decoding.{decode_manifest-IsSound}
use angelus.Plugins.Rescans.{names_of, paths_of, package_paths, rescan-finds, rescan-raises}

abbrev is_digit : ℕ → Bool
is_digit c = leb b'0' c && leb c b'9'

abbrev never : Json → Json → Bool
never a b = false

abbrev token_field : Json
token_field = object (
    member "key" (text "api_token") (
      member "type" (text "string")
        (member "format" (text "password") (member "sensitive" (boolean true) end))))

abbrev login_panel : Json
login_panel = object (
    member "id" (text "login")
      (member "action" (text "sign_in") (member "fields" (array (cons token_field nil)) end)))

abbrev tool_manifest : Members
tool_manifest = member "name" (text "reader") (
    member "version" (text "1.0.2") (
      member "api_version" (text "1") (
        member "entry" (text "main")
          (member "frontend" (object (member "panels" (array (cons login_panel nil)) end)) end))))

abbrev decoded : PluginManifest
decoded = record {
  name = "reader";
  display_name = "reader";
  version = "1.0.2";
  api_version = "1";
  kind = PluginKind.tool;
  entry = some "main";
  description = "";
  permissions = [];
  assets = [];
  settings_enabled = false;
  settings_schema = [];
  themes = [];
  panels =
      record {
        id = "login";
        title = "login";
        description = "";
        action = "sign_in";
        submit_label = "Run";
        fields =
            record {
              key = "api_token";
              value_type = ValueType.string;
              title = "";
              description = "";
              required = false;
              default = none;
              choices = [];
              minimum = none;
              maximum = none;
              value_format = some ValueFormat.password;
              placeholder = "";
              sensitive = true;
              visible_if = none;
            }
            ∷ [];
      }
      ∷ [];
}

accepted : decode_manifest is_digit never tool_manifest ≡ ok decoded
unfolding decode_manifest panels panel panel_fields panel_field collect valid_name valid_key
    valid_version valid_entry credential_shaped split_at each_json
accepted = refl

decode_manifest-IsSound_example : IsSound decoded
decode_manifest-IsSound_example =
    decode_manifest-IsSound is_digit never tool_manifest decoded accepted

-- A manifest whose kind is an array.
abbrev broken_manifest : Members
broken_manifest = member "name" (text "broken") (
    member "version" (text "1.0.0")
      (member "api_version" (text "1") (member "kind" (array nil) end)))

abbrev good : Package
good = record { package_path = "plugins/reader"; reading = Reading.parsed (object tool_manifest) }

abbrev broken : Package
broken = record {
  package_path = "plugins/broken";
  reading = Reading.parsed (object broken_manifest);
}

loaded : load_manifest is_digit never good.reading ≡ ok decoded
unfolding load_manifest
loaded = accepted

broken_lem : load_manifest is_digit never broken.reading ≡ err type_error
unfolding load_manifest decode_manifest valid_name valid_version split_at
broken_lem = refl

found_twice :
    rescan is_digit never (good ∷ good ∷ [])
    ≡ ok (found_as decoded "plugins/reader" ∷ invalid "plugins/reader" ∷ [])
unfolding rescan rescan_from
found_twice = rw loaded refl

rescan-finds_example :
    IsUnique (names_of (found_as decoded "plugins/reader" ∷ invalid "plugins/reader" ∷ []))
    × (paths_of (found_as decoded "plugins/reader" ∷ invalid "plugins/reader" ∷ [])
        ≡ package_paths (good ∷ good ∷ []))
rescan-finds_example =
    rescan-finds is_digit never (good ∷ good ∷ [])
      (found_as decoded "plugins/reader" ∷ invalid "plugins/reader" ∷ []) found_twice

rescan-raises_example : (e : PluginError) × (rescan is_digit never (good ∷ broken ∷ []) ≡ err e)
unfolding load_manifest decode_manifest valid_name valid_version split_at
rescan-raises_example = rescan-raises is_digit never (good ∷ broken ∷ []) (inr (inl tt))
