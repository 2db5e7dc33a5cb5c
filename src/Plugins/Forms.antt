-- ===== src/Plugins/Forms.antt =====
-- manifest.py: the forms that a manifest declares, which are the settings and the fields of panels.
-- `greater` is Python's `>` on numbers.
use angelus.Prelude.{
  Bool, true, false, not, ◌&&◌, ◌||◌, Option, none, some, List, [], ◌∷◌, String, ◌==◌, any, mem, ok,
  ◌>>=◌, ◌>>◌, raise_if, get_or,
}
use angelus.Settings.Json.{Json, boolean, get, keys}
use angelus.Plugins.Types.{
  manifest_error, Decoded, ValueFormat, PluginSettingField, PluginPanelField,
}
use angelus.Plugins.Patterns.{valid_key, credential_shaped}
use angelus.Plugins.Values.{
  text_of, mapping_of, sequence_of, bool_of, hashed_text, reject_unknown, plain, collect,
}
use angelus.Plugins.Fields.{
  type_named, lookup, default_of, choices_of, bound_of, format_of, is_string, is_true, is_password,
  crosses, visibility,
}

abbrev pub setting_keys : List String
setting_keys =
    "key" ∷ "type" ∷ "title" ∷ "description" ∷ "required" ∷ "default" ∷ "enum" ∷ "minimum"
    ∷ "maximum" ∷ "format" ∷ "placeholder" ∷ []

abbrev pub panel_field_keys : List String
panel_field_keys = "sensitive" ∷ "visible_if" ∷ setting_keys

abbrev pub differ : Bool → Bool → Bool
differ true b = not b
differ false b = b

abbrev pub is_password_format : Option ValueFormat → Bool
is_password_format (some ValueFormat.password) = true
is_password_format (some ValueFormat.uri) = false
is_password_format (some ValueFormat.path) = false
is_password_format (some ValueFormat.textarea) = false
is_password_format none = false

module _ (greater : Json → Json → Bool) where
  -- One turn of the loop of `_settings`, after the fields that it has decoded.
  unfoldable pub setting_field : List PluginSettingField → Json → Decoded PluginSettingField
  unfolding mapping_of reject_unknown text_of hashed_text type_named default_of choices_of bound_of
      format_of plain
  setting_field fields j = do
    raw ← mapping_of j
    reject_unknown setting_keys raw
    key ← text_of (lookup "key" raw)
    raise_if (not (valid_key key) || credential_shaped key) manifest_error
    name ← hashed_text (lookup "type" raw)
    t ← type_named name
    default ← default_of t raw
    choices ← choices_of t raw
    minimum ← bound_of t (lookup "minimum" raw)
    maximum ← bound_of t (lookup "maximum" raw)
    raise_if (crosses greater minimum maximum) manifest_error
    format ← format_of false t (lookup "format" raw)
    raise_if (any (λ f. f.key == key) fields) manifest_error
    title ← plain 120 (lookup "title" raw)
    description ← plain 1000 (lookup "description" raw)
    placeholder ← plain 240 (lookup "placeholder" raw)
    ok (record {
      key = key;
      value_type = t;
      title = title;
      description = description;
      required = is_true (lookup "required" raw);
      default = default;
      choices = choices;
      minimum = minimum;
      maximum = maximum;
      value_format = format;
      placeholder = placeholder;
    })

  -- `_settings`
  unfoldable pub settings : Json → Decoded (List PluginSettingField)
  unfolding collect setting_field sequence_of
  settings j = sequence_of j >>= λ items. collect setting_field [] items

  -- One turn of the loop of `_panel_fields`.
  unfoldable pub panel_field : List PluginPanelField → Json → Decoded PluginPanelField
  unfolding mapping_of reject_unknown text_of bool_of hashed_text type_named default_of choices_of
      bound_of format_of plain visibility
  panel_field fields j = do
    raw ← mapping_of j
    reject_unknown panel_field_keys raw
    key ← text_of (lookup "key" raw)
    raise_if (not (valid_key key)) manifest_error
    sensitive ← bool_of (get_or (boolean false) (get "sensitive" raw))
    raise_if (differ sensitive (credential_shaped key)) manifest_error
    name ← hashed_text (lookup "type" raw)
    t ← type_named name
    raise_if
        (sensitive
          && (not (is_string t)
              || not (is_password (lookup "format" raw))
              || mem "default" (keys raw)))
        manifest_error
    default ← default_of t raw
    choices ← choices_of t raw
    minimum ← bound_of t (lookup "minimum" raw)
    maximum ← bound_of t (lookup "maximum" raw)
    raise_if (crosses greater minimum maximum) manifest_error
    format ← format_of true t (lookup "format" raw)
    raise_if (is_password_format format && not sensitive) manifest_error
    raise_if (any (λ f. f.key == key) fields) manifest_error
    title ← plain 120 (lookup "title" raw)
    description ← plain 1000 (lookup "description" raw)
    placeholder ← plain 240 (lookup "placeholder" raw)
    visible_if ← visibility 5 (lookup "visible_if" raw)
    ok (record {
      key = key;
      value_type = t;
      title = title;
      description = description;
      required = is_true (lookup "required" raw);
      default = default;
      choices = choices;
      minimum = minimum;
      maximum = maximum;
      value_format = format;
      placeholder = placeholder;
      sensitive = sensitive;
      visible_if = visible_if;
    })

  -- `_panel_fields`
  unfoldable pub panel_fields : Json → Decoded (List PluginPanelField)
  unfolding collect panel_field sequence_of
  panel_fields j = sequence_of j >>= λ items. collect panel_field [] items
