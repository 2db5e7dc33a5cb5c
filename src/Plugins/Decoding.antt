-- ===== src/Plugins/Decoding.antt =====
-- A manifest that is decoded is sound.
use angelus.Prelude.{
  ℕ, ◌≡◌, Bool, true, false, not, ◌&&◌, [], ◌∷◌, ◌==◌, is_some, ok, raise_if, get_or, arith,
  Ensures, Ensures-after, Ensures-bind, Ensures-raise_if, Ensures-ok,
}
use angelus.Settings.Json.{Json, boolean, text, array, object, nil, end, Members, get}
use angelus.Plugins.Types.{manifest_error, PluginKind, PluginManifest}
use angelus.Plugins.Patterns.{valid_name, valid_version}
use angelus.Plugins.Values.{mapping_of, bool_of, hashed_text, reject_unknown, text_field}
use angelus.Plugins.Fields.{lookup}
use angelus.Plugins.Forms.{settings}
use angelus.Plugins.Manifest.{
  assets, themes, panels, permissions, or_text, is_kind, is_nil, kind_named, entry_of,
  manifest_keys, decode_manifest,
}
use angelus.Plugins.Sound.{AreSettings, settings-AreSettings}
use angelus.Plugins.Accepted.{
  AreAssets, Themes, ArePanels, IsSound, assets-AreAssets, themes-Themes, entry_of-kind,
  panels-ArePanels,
}

module _ (is_digit : ℕ → Bool) (greater : Json → Json → Bool) where
  -- The part of the decoding behind the entry.
  decode_manifest-IsSound' :
      (raw : Members) → Ensures IsSound (decode_manifest is_digit greater raw)
  unfolding decode_manifest
  decode_manifest-IsSound' raw =
      let P : PluginManifest → Type 0 = IsSound in
      Ensures-after P (reject_unknown manifest_keys raw) _ (λ _.
        Ensures-after P (text_field "name" true 64 raw) _ (λ name.
          Ensures-raise_if P (not (valid_name name)) manifest_error _ (λ named.
            Ensures-after P (text_field "version" true 32 raw) _ (λ version.
              Ensures-after P (raise_if (not (valid_version is_digit version)) manifest_error) _
                (λ _. Ensures-after P (text_field "api_version" true 16 raw) _ (λ api.
                  Ensures-after P (raise_if (not (api == "1")) manifest_error) _ (λ _.
                    Ensures-after P (hashed_text (get_or (text "tool") (get "kind" raw))) _
                      (λ kind_name. Ensures-after P (kind_named kind_name) _ (λ kind.
                        Ensures-bind (λ e. is_some e ≡ is_kind kind PluginKind.tool) P
                          (entry_of kind (lookup "entry" raw)) _
                          (entry_of-kind kind (lookup "entry" raw))
                          (λ entry entered.
                            Ensures-after P (mapping_of (get_or (object end) (get "frontend" raw)))
                              _
                              (λ frontend.
                                Ensures-after P
                                  (reject_unknown ("assets" ∷ "settings" ∷ "themes" ∷ "panels" ∷ [])
                                    frontend)
                                  _
                                  (λ _.
                                    Ensures-bind AreAssets P
                                      (assets (get_or (array nil) (get "assets" frontend))) _
                                      (assets-AreAssets
                                        (get_or (array nil) (get "assets" frontend)))
                                      (λ whitelist a.
                                        Ensures-bind (Themes whitelist kind) P
                                          (themes (get_or (array nil) (get "themes" frontend))
                                            whitelist kind)
                                          _
                                          (themes-Themes
                                            (get_or (array nil) (get "themes" frontend)) whitelist
                                            kind)
                                          (λ skins t.
                                            Ensures-bind ArePanels P
                                              (panels is_digit greater
                                                (get_or (array nil) (get "panels" frontend)))
                                              _
                                              (panels-ArePanels is_digit greater
                                                (get_or (array nil) (get "panels" frontend)))
                                              (λ forms p.
                                                Ensures-raise_if P
                                                  (not (is_nil forms)
                                                    && not (is_kind kind PluginKind.tool))
                                                  manifest_error _
                                                  (λ only_tools.
                                                    Ensures-after P
                                                      (bool_of (
                                                        get_or (boolean false)
                                                          (get "settings" frontend)))
                                                      _
                                                      (λ enabled.
                                                        Ensures-bind AreSettings P
                                                          (settings greater (
                                                            get_or (array nil)
                                                            (get "settings_schema" raw)))
                                                          _
                                                          (settings-AreSettings greater (
                                                            get_or (array nil)
                                                            (get "settings_schema" raw)))
                                                          (λ schema c.
                                                            Ensures-raise_if P
                                                            (not (is_nil schema) && not enabled)
                                                            manifest_error _
                                                            (λ on.
                                                            Ensures-after P
                                                            (text_field "display_name" false 120
                                                            raw)
                                                            _
                                                            (λ display.
                                                            Ensures-after P
                                                            (text_field "description" false 2000
                                                            raw)
                                                            _
                                                            (λ description.
                                                            Ensures-after P
                                                            (permissions (
                                                            get_or (array nil)
                                                            (get "permissions" raw)))
                                                            (λ grants. ok (record {
                                                            name = name;
                                                            display_name = or_text display name;
                                                            version = version;
                                                            api_version = api;
                                                            kind = kind;
                                                            entry = entry;
                                                            description = description;
                                                            permissions = grants;
                                                            assets = whitelist;
                                                            settings_enabled = enabled;
                                                            settings_schema = schema;
                                                            themes = skins;
                                                            panels = forms;
                                                            }))
                                                            (λ grants. record {
                                                            named = ground arith;
                                                            entered = entered;
                                                            served = a;
                                                            themed = t.0;
                                                            theme_kind = t.1;
                                                            paneled = p;
                                                            panel_kind = ground arith;
                                                            configured = c;
                                                            enabled = ground arith;
                                                            }))))))))))))))))))))))

  -- An accepted manifest has a valid name; an entry exactly if it is a tool; assets that are
  -- distinct, relative and never climb out of the package; themes exactly if it is a theme
  -- pack, with distinct ids and CSS files among its assets; panels only if it is a tool, with
  -- distinct ids and actions; in each panel fields with distinct keys, sensitive exactly where
  -- the key looks like a credential, and then strings in the password format with no default;
  -- and settings only where they are enabled, with distinct keys that do not look like
  -- credentials.
  pub decode_manifest-IsSound :
      (raw : Members) (m : PluginManifest) → decode_manifest is_digit greater raw ≡ ok m → IsSound m
  decode_manifest-IsSound raw m e =
      Ensures-ok IsSound (decode_manifest is_digit greater raw) (decode_manifest-IsSound' raw) e
