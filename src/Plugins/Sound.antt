-- ===== src/Plugins/Sound.antt =====
-- The forms, themes and assets of an accepted manifest.
use mathlib.Core.List.{map-append}
use angelus.Prelude.{
  ◌≡◌, refl, ap, sym, subst, ◌∙◌, Bool, true, false, not, ◌||◌, List, [], ◌∷◌, ◌++◌, String, ◌==◌,
  map, all, any, mem, raise_if, arith, IsUnique, append_one-IsUnique, all-append, Ensures,
  Ensures-after, Ensures-bind, Ensures-raise_if,
}
use angelus.Settings.Json.{Json}
use angelus.Plugins.Types.{manifest_error, Decoded, PluginSettingField}
use angelus.Plugins.Patterns.{valid_key, credential_shaped}
use angelus.Plugins.Values.{
  text_of, mapping_of, sequence_of, hashed_text, reject_unknown, plain, collect,
}
use angelus.Plugins.Fields.{
  type_named, lookup, default_of, choices_of, bound_of, format_of, is_true, crosses,
}
use angelus.Plugins.Forms.{setting_keys, setting_field, settings}

pub any-mem :
    {A : Type 0} (key : A → String) (k : String) (xs : List A)
    → any (λ x. key x == k) xs ≡ mem k (map key xs)
any-mem key k [] = refl
any-mem key k (x ∷ xs) = ap (λ b. key x == k || b) (any-mem key k xs)

-- A loop keeps what each of its steps keeps.
pub collect-keeps :
    {A : Type 0} (Inv : List A → Type 0) (step : List A → Json → Decoded A)
    → ((found : List A) (j : Json)
        → Inv found
        → Ensures (λ a. Inv (found ++ a ∷ [])) (step found j))
    → (found : List A) (js : List Json) → Inv found
    → Ensures Inv (collect step found js)
unfolding collect
collect-keeps Inv step keep found [] i = i
collect-keeps Inv step keep found (j ∷ js) i =
    Ensures-bind (λ a. Inv (found ++ a ∷ [])) Inv (step found j)
      (λ a. collect step (found ++ a ∷ []) js) (keep found j i)
      (λ a k. collect-keeps Inv step keep (found ++ a ∷ []) js k)

-- The keys stay distinct if a new one is not among them.
pub IsUnique-append :
    {A : Type 0} (key : A → String) (xs : List A) (x : A)
    → any (λ y. key y == key x) xs ≡ false
    → IsUnique (map key xs)
    → IsUnique (map key (xs ++ x ∷ []))
IsUnique-append key xs x h u =
    subst IsUnique (sym (map-append key xs (x ∷ [])))
      (append_one-IsUnique (key x) (map key xs) (sym (any-mem key (key x) xs) ∙ h) u)

pub all_append :
    {A : Type 0} (p : A → Bool) (xs : List A) (x : A)
    → all p xs ≡ true
    → p x ≡ true
    → all p (xs ++ x ∷ []) ≡ true
all_append p xs x h k = all-append p xs (x ∷ []) ∙ rw (h, k) refl

-- Settings have distinct keys, none of which looks like a credential.
abbrev pub AreSettings : List PluginSettingField → Type 0
AreSettings fields =
    IsUnique (map (λ f. f.key) fields) × (all (λ f. not (credential_shaped f.key)) fields ≡ true)

module _ (greater : Json → Json → Bool) where
  setting_field-keeps :
      (fields : List PluginSettingField) (j : Json)
      → AreSettings fields
      → Ensures (λ f. AreSettings (fields ++ f ∷ [])) (setting_field greater fields j)
  unfolding setting_field
  setting_field-keeps fields j (u, g) =
      let P : PluginSettingField → Type 0 = λ f. AreSettings (fields ++ f ∷ []) in
      Ensures-after P (mapping_of j) _ (λ raw.
        Ensures-after P (reject_unknown setting_keys raw) _ (λ _.
          Ensures-after P (text_of (lookup "key" raw)) _ (λ key.
            Ensures-raise_if P (not (valid_key key) || credential_shaped key) manifest_error _
              (λ shape. Ensures-after P (hashed_text (lookup "type" raw)) _ (λ name.
                Ensures-after P (type_named name) _ (λ t.
                  Ensures-after P (default_of t raw) _ (λ default.
                    Ensures-after P (choices_of t raw) _ (λ choices.
                      Ensures-after P (bound_of t (lookup "minimum" raw)) _ (λ minimum.
                        Ensures-after P (bound_of t (lookup "maximum" raw)) _ (λ maximum.
                          Ensures-after P
                            (raise_if (crosses greater minimum maximum) manifest_error) _
                            (λ _.
                              Ensures-after P (format_of false t (lookup "format" raw)) _ (λ format.
                                Ensures-raise_if P (any (λ f. f.key == key) fields) manifest_error _
                                  (λ fresh.
                                    Ensures-after P (plain 120 (lookup "title" raw)) _ (λ title.
                                      Ensures-after P (plain 1000 (lookup "description" raw)) _
                                        (λ description.
                                          Ensures-after P (plain 240 (lookup "placeholder" raw)) _
                                            (λ placeholder.
                                              let f : PluginSettingField = record {
                                                key = key;
                                                value_type = t;
                                                title = title;
                                                description = description;
                                                required = is_true (lookup "required" raw);
                                                default = default;
                                                choices = choices;
                                                minimum = minimum;
                                                maximum = maximum;
                                                value_format = format;
                                                placeholder = placeholder;
                                              } in
                                              let a =
                                                IsUnique-append (λ (x : PluginSettingField). x.key)
                                                  fields f fresh u in
                                              let b =
                                                all_append
                                                  (λ (x : PluginSettingField).
                                                    not (credential_shaped x.key))
                                                  fields f g (ground arith) in
                                              (a, b)))))))))))))))))

  pub settings-AreSettings : (j : Json) → Ensures AreSettings (settings greater j)
  unfolding settings
  settings-AreSettings j = Ensures-after AreSettings (sequence_of j) _ (λ items.
      collect-keeps AreSettings (setting_field greater) setting_field-keeps [] items (tt, refl))
