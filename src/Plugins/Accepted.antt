-- ===== src/Plugins/Accepted.antt =====
-- What holds of every manifest that is accepted.
use angelus.Prelude.{
  ℕ, ◌≡◌, refl, Bool, true, false, not, ◌&&◌, ◌||◌, Option, none, some, List, [], ◌∷◌, ◌++◌, String,
  ◌==◌, map, is_some, if◌then◌else◌, all, any, mem, ok, err, raise_if, get_or, arith, IsUnique,
  append_one-IsUnique, Ensures, Ensures-after, Ensures-bind, Ensures-raise_if,
}
use angelus.Settings.Json.{Json, array, nil, get}
use angelus.Plugins.Types.{
  PluginError, manifest_error, PluginKind, PluginTheme, PluginPanel, PluginManifest,
}
use angelus.Plugins.Patterns.{valid_asset, climbs, valid_name, valid_entry, is_css}
use angelus.Plugins.Values.{
  text_of, mapping_of, sequence_of, hashed_text, reject_unknown, plain, collect,
}
use angelus.Plugins.Fields.{lookup, is_null}
use angelus.Plugins.Forms.{panel_fields}
use angelus.Plugins.Manifest.{
  asset, assets, theme, themes, mode_named, bounded, panel, panels, panel_keys, or_text, is_kind,
  is_nil, entry_of,
}
use angelus.Plugins.Sound.{collect-keeps, IsUnique-append, all_append, AreSettings}
use angelus.Plugins.Guards.{ArePanelFields, panel_fields-ArePanelFields}

-- Distinct relative paths, none of which climbs out of the package.
abbrev pub AreAssets : List String → Type 0
AreAssets paths = IsUnique paths × (all (λ a. valid_asset a && not (climbs a)) paths ≡ true)

abbrev pub in_whitelist : List String → PluginTheme → Bool
in_whitelist whitelist t = mem t.asset whitelist && is_css t.asset

-- Themes with distinct ids, whose files are CSS files among the assets.
abbrev pub AreThemes : List String → List PluginTheme → Type 0
AreThemes whitelist ts = IsUnique (map (λ t. t.id) ts) × (all (in_whitelist whitelist) ts ≡ true)

abbrev pub AreForms : List PluginPanel → Type 0
AreForms [] = Unit
AreForms (p ∷ ps) = ArePanelFields p.fields × AreForms ps

-- Panels with distinct ids and distinct actions, and forms that guard what is sensitive.
abbrev pub ArePanels : List PluginPanel → Type 0
ArePanels ps = IsUnique (map (λ p. p.id) ps) × IsUnique (map (λ p. p.action) ps) × AreForms ps

pub record IsSound (m : PluginManifest) : Type 0 where
  pub named : valid_name m.name ≡ true
  pub entered : is_some m.entry ≡ is_kind m.kind PluginKind.tool
  pub served : AreAssets m.assets
  pub themed : AreThemes m.assets m.themes
  pub theme_kind : is_kind m.kind PluginKind.theme_pack ≡ not (is_nil m.themes)
  pub paneled : ArePanels m.panels
  pub panel_kind : (is_nil m.panels || is_kind m.kind PluginKind.tool) ≡ true
  pub configured : AreSettings m.settings_schema
  pub enabled : (is_nil m.settings_schema || m.settings_enabled) ≡ true

asset-keeps :
    (paths : List String) (j : Json)
    → AreAssets paths
    → Ensures (λ a. AreAssets (paths ++ a ∷ [])) (asset paths j)
unfolding asset
asset-keeps paths j (u, g) =
    let P : String → Type 0 = λ a. AreAssets (paths ++ a ∷ []) in
    Ensures-after P (text_of j) _ (λ path.
      Ensures-raise_if P (not (valid_asset path) || climbs path) manifest_error _ (λ safe.
        Ensures-raise_if P (mem path paths) manifest_error _ (λ fresh.
          let a = append_one-IsUnique path paths fresh u in
          let b =
            all_append (λ (x : String). valid_asset x && not (climbs x)) paths path g
              (ground arith) in
          (a, b))))

pub assets-AreAssets : (j : Json) → Ensures AreAssets (assets j)
unfolding assets
assets-AreAssets j =
    Ensures-after AreAssets (sequence_of j) _
      (λ items. collect-keeps AreAssets asset asset-keeps [] items (tt, refl))

theme-keeps :
    (whitelist : List String) (ts : List PluginTheme) (j : Json)
    → AreThemes whitelist ts
    → Ensures (λ t. AreThemes whitelist (ts ++ t ∷ [])) (theme whitelist ts j)
unfolding theme
theme-keeps whitelist ts j (u, g) =
    let P : PluginTheme → Type 0 = λ t. AreThemes whitelist (ts ++ t ∷ []) in
    Ensures-after P (mapping_of j) _ (λ raw. Ensures-after P (text_of (lookup "id" raw)) _ (λ id.
      Ensures-after P (raise_if (not (valid_name id)) manifest_error) _ (λ _.
        Ensures-after P (bounded 120 (lookup "title" raw)) _ (λ title.
          Ensures-after P (text_of (lookup "asset" raw)) _ (λ path.
            Ensures-raise_if P (not (mem path whitelist) || not (is_css path)) manifest_error _
              (λ listed. Ensures-after P (hashed_text (lookup "mode" raw)) _ (λ name.
                Ensures-after P (mode_named name) _ (λ mode.
                  Ensures-raise_if P (any (λ t. t.id == id) ts) manifest_error _ (λ fresh.
                    let t : PluginTheme = record {
                      id = id;
                      title = title;
                      asset = path;
                      mode = mode;
                    } in
                    let a = IsUnique-append (λ (x : PluginTheme). x.id) ts t fresh u in
                    let b = all_append (in_whitelist whitelist) ts t g (ground arith) in
                    (a, b))))))))))

-- The themes that a kind of plugin may and must have.
abbrev pub Themes : List String → PluginKind → List PluginTheme → Type 0
Themes whitelist kind ts =
    AreThemes whitelist ts × (is_kind kind PluginKind.theme_pack ≡ not (is_nil ts))

pub themes-Themes :
    (j : Json) (whitelist : List String) (kind : PluginKind)
    → Ensures (Themes whitelist kind) (themes j whitelist kind)
unfolding themes
themes-Themes j whitelist kind =
    let P : List PluginTheme → Type 0 = Themes whitelist kind in
    let pack = is_kind kind PluginKind.theme_pack in
    Ensures-after P (sequence_of j) _ (λ items.
      Ensures-bind (AreThemes whitelist) P (collect (theme whitelist) [] items) _
        (collect-keeps (AreThemes whitelist) (theme whitelist) (theme-keeps whitelist) [] items
          (tt, refl))
        (λ result k. Ensures-raise_if P (pack && is_nil result) manifest_error _ (λ a.
          Ensures-raise_if P (not pack && not (is_nil result)) manifest_error (ok result)
            (λ b. let c : pack ≡ not (is_nil result) = ground arith in (k, c)))))

AreForms-append :
    (ps : List PluginPanel) (p : PluginPanel)
    → AreForms ps
    → ArePanelFields p.fields
    → AreForms (ps ++ p ∷ [])
AreForms-append [] p h k = (k, tt)
AreForms-append (q ∷ ps) p (h, hs) k = (h, AreForms-append ps p hs k)

no_entry :
    (b : Bool)
    → Ensures {E = PluginError} {A = Option String}
        (λ e. is_some e ≡ false)
        (if b then ok none else err manifest_error)
no_entry true = refl
no_entry false = tt

pub entry_of-kind :
    (kind : PluginKind) (j : Json)
    → Ensures (λ e. is_some e ≡ is_kind kind PluginKind.tool) (entry_of kind j)
unfolding entry_of
entry_of-kind PluginKind.tool j =
    let P : Option String → Type 0 = λ e. is_some e ≡ true in
    Ensures-after P (text_of j) _ (λ entry.
      Ensures-after P (raise_if (not (valid_entry entry)) manifest_error) (λ _. ok (some entry))
        (λ _. refl))
entry_of-kind PluginKind.ui j = no_entry (is_null j)
entry_of-kind PluginKind.theme_pack j = no_entry (is_null j)

module _ (is_digit : ℕ → Bool) (greater : Json → Json → Bool) where
  panel-keeps :
      (ps : List PluginPanel) (j : Json)
      → ArePanels ps
      → Ensures (λ p. ArePanels (ps ++ p ∷ [])) (panel is_digit greater ps j)
  unfolding panel
  panel-keeps ps j (u, v, g) =
      let P : PluginPanel → Type 0 = λ p. ArePanels (ps ++ p ∷ []) in
      Ensures-after P (mapping_of j) _ (λ raw.
        Ensures-after P (reject_unknown panel_keys raw) _ (λ _.
          Ensures-after P (text_of (lookup "id" raw)) _ (λ id.
            Ensures-after P (raise_if (not (valid_name id)) manifest_error) _ (λ _.
              Ensures-after P (text_of (lookup "action" raw)) _ (λ action.
                Ensures-after P (raise_if (not (valid_name action)) manifest_error) _ (λ _.
                  Ensures-raise_if P (any (λ p. p.id == id) ps) manifest_error _ (λ new_id.
                    Ensures-raise_if P (any (λ p. p.action == action) ps) manifest_error _
                      (λ new_action.
                        Ensures-bind ArePanelFields P
                          (panel_fields greater (get_or (array nil) (get "fields" raw))) _
                          (panel_fields-ArePanelFields greater
                            (get_or (array nil) (get "fields" raw)))
                          (λ fields k. Ensures-after P (plain 120 (lookup "title" raw)) _ (λ title.
                            Ensures-after P (plain 1000 (lookup "description" raw)) _
                              (λ description.
                                Ensures-after P (plain 120 (lookup "submit_label" raw)) _ (λ label.
                                  let p : PluginPanel = record {
                                    id = id;
                                    title = or_text title id;
                                    description = description;
                                    action = action;
                                    submit_label = or_text label "Run";
                                    fields = fields;
                                  } in
                                  let a =
                                    IsUnique-append (λ (x : PluginPanel). x.id) ps p new_id u in
                                  let b =
                                    IsUnique-append (λ (x : PluginPanel). x.action) ps p new_action
                                      v in
                                  let c = AreForms-append ps p g k in (a, b, c)))))))))))))

  pub panels-ArePanels : (j : Json) → Ensures ArePanels (panels is_digit greater j)
  unfolding panels
  panels-ArePanels j =
      Ensures-after ArePanels (sequence_of j) _ (λ items.
        collect-keeps ArePanels (panel is_digit greater) panel-keeps [] items (tt, tt, tt))
