-- ===== src/Plugins/Guards.antt =====
-- The fields of panels: which of them are sensitive, and what is asked of those.
use angelus.Prelude.{
  ◌≡◌, refl, Bool, true, false, is_none, not, ◌&&◌, ◌||◌, Option, none, some, List, [], ◌∷◌, ◌++◌,
  String, ◌==◌, map, if◌then◌else◌, all, any, mem, ok, err, ◌>>=◌, raise_if, get_or, arith,
  IsUnique, Ensures, Ensures-after, Ensures-bind, Ensures-raise_if, Bool-cases, inl, inr, eq_iff,
}
use angelus.Settings.Json.{
  Json, null, boolean, integer, number, text, array, object, Members, get, keys,
}
use angelus.Plugins.Types.{manifest_error, Decoded, ValueType, ValueFormat, PluginPanelField}
use angelus.Plugins.Patterns.{valid_key, credential_shaped}
use angelus.Plugins.Values.{
  text_of, mapping_of, sequence_of, bool_of, hashed_text, reject_unknown, matches, plain,
}
use angelus.Plugins.Fields.{
  type_named, lookup, default_of, choices_of, bound_of, format_of, is_string, is_true, is_password,
  crosses, visibility, format_named,
}
use angelus.Plugins.Forms.{panel_field_keys, differ, is_password_format, panel_field, panel_fields}
use angelus.Plugins.Sound.{collect-keeps, IsUnique-append, all_append}

-- A panel's field is sensitive exactly if its key looks like a credential, and then it is a string
-- in the password format with no default.
unfoldable pub is_guarded : PluginPanelField → Bool
is_guarded f =
    if f.sensitive
    then credential_shaped f.key
      && is_string f.value_type
      && is_password_format f.value_format
      && is_none f.default
    else not (credential_shaped f.key) && not (is_password_format f.value_format)

abbrev pub ArePanelFields : List PluginPanelField → Type 0
ArePanelFields fields = IsUnique (map (λ f. f.key) fields) × (all is_guarded fields ≡ true)

-- What the checks of a field come to.
guard_checks :
    (s c str pw dflt : Bool) (format : Option ValueFormat) (default : Option Json)
    → differ s c ≡ false
    → (s && (not str || not pw || dflt)) ≡ false
    → (dflt ≡ false → default ≡ none)
    → (pw ≡ true → str ≡ true → is_password_format format ≡ true)
    → (is_password_format format && not s) ≡ false
    → (if s
        then c && str && is_password_format format && is_none default
        else not c && not (is_password_format format))
      ≡ true
guard_checks true true true true false format default a b d f p = rw (d refl, f refl refl) refl
guard_checks true true true true true format default a b d f p = cc
guard_checks true true true false dflt format default a b d f p = cc
guard_checks true true false pw dflt format default a b d f p = cc
guard_checks true false str pw dflt format default a b d f p = cc
guard_checks false true str pw dflt format default a b d f p = cc
guard_checks false false str pw dflt format default a b d f p = ground arith

default_of-absent :
    (t : ValueType) (raw : Members)
    → Ensures (λ d. mem "default" (keys raw) ≡ false → d ≡ none) (default_of t raw)
unfolding default_of
default_of-absent t raw =
    let P : Option Json → Type 0 = λ d. mem "default" (keys raw) ≡ false → d ≡ none in
    Ensures-after P
      (raise_if (mem "default" (keys raw) && not (matches t (lookup "default" raw))) manifest_error)
      (λ _. ok (if mem "default" (keys raw) then some (lookup "default" raw) else none))
      (λ _ h. rw h refl)

Ensures-all : {A : Type 0} (P : A → Type 0) (r : Decoded A) → ((a : A) → P a) → Ensures P r
Ensures-all P (ok a) h = h a
Ensures-all P (err e) h = tt

format_named-password :
    (name : String) → (name == "password") ≡ true → format_named true name ≡ ok ValueFormat.password
unfolding format_named
format_named-password name h =
    let e : name ≡ "password" = ground (arith, eq_iff name "password") in rw e refl

AsksPassword : Json → ValueType → Option ValueFormat → Type 0
AsksPassword j t f = is_password j ≡ true → is_string t ≡ true → is_password_format f ≡ true

text_format-password :
    (t : ValueType) (name : String)
    → Ensures (AsksPassword (text name) t) (format_of true t (text name))
unfolding AsksPassword format_of hashed_text
text_format-password t name = elim (Bool-cases (name == "password")) [
  | inl p ↦ password_asked (is_string t) (format_named-password name p)
  | inr p ↦
      Ensures-all (AsksPassword (text name) t) (format_of true t (text name)) (λ f h. absurd (cc))
]
  where
    password_asked :
        (b : Bool)
        → format_named true name ≡ ok ValueFormat.password
        → Ensures
            (AsksPassword (text name) t)
            (if b then (format_named true name >>= λ f. ok (some f)) else err manifest_error)
    password_asked true e = rw e (λ _ _. refl)
    password_asked false e = tt

format_of-password : (t : ValueType) (j : Json) → Ensures (AsksPassword j t) (format_of true t j)
unfolding AsksPassword
format_of-password t (text name) = text_format-password t name
format_of-password t null = Ensures-all (AsksPassword null t) (format_of true t null) (λ f h. cc)
format_of-password t (boolean b) =
    Ensures-all (AsksPassword (boolean b) t) (format_of true t (boolean b)) (λ f h. cc)
format_of-password t (integer n) =
    Ensures-all (AsksPassword (integer n) t) (format_of true t (integer n)) (λ f h. cc)
format_of-password t (number n) =
    Ensures-all (AsksPassword (number n) t) (format_of true t (number n)) (λ f h. cc)
format_of-password t (array n) =
    Ensures-all (AsksPassword (array n) t) (format_of true t (array n)) (λ f h. cc)
format_of-password t (object n) =
    Ensures-all (AsksPassword (object n) t) (format_of true t (object n)) (λ f h. cc)

module _ (greater : Json → Json → Bool) where
  panel_field-keeps :
      (fields : List PluginPanelField) (j : Json)
      → ArePanelFields fields
      → Ensures (λ f. ArePanelFields (fields ++ f ∷ [])) (panel_field greater fields j)
  unfolding panel_field is_guarded AsksPassword
  panel_field-keeps fields j (u, g) =
      let P : PluginPanelField → Type 0 = λ f. ArePanelFields (fields ++ f ∷ []) in
      Ensures-after P (mapping_of j) _ (λ raw.
        Ensures-after P (reject_unknown panel_field_keys raw) _ (λ _.
          Ensures-after P (text_of (lookup "key" raw)) _ (λ key.
            Ensures-after P (raise_if (not (valid_key key)) manifest_error) _ (λ _.
              Ensures-after P (bool_of (get_or (boolean false) (get "sensitive" raw))) _
                (λ sensitive.
                  Ensures-raise_if P (differ sensitive (credential_shaped key)) manifest_error _
                    (λ d. Ensures-after P (hashed_text (lookup "type" raw)) _ (λ name.
                      Ensures-after P (type_named name) _ (λ t.
                        Ensures-raise_if P
                          (sensitive
                            && (not (is_string t)
                                || not (is_password (lookup "format" raw))
                                || mem "default" (keys raw)))
                          manifest_error _
                          (λ s.
                            Ensures-bind (λ d. mem "default" (keys raw) ≡ false → d ≡ none) P
                              (default_of t raw) _ (default_of-absent t raw)
                              (λ default n. Ensures-after P (choices_of t raw) _ (λ choices.
                                Ensures-after P (bound_of t (lookup "minimum" raw)) _ (λ minimum.
                                  Ensures-after P (bound_of t (lookup "maximum" raw)) _ (λ maximum.
                                    Ensures-after P
                                      (raise_if (crosses greater minimum maximum) manifest_error) _
                                      (λ _.
                                        Ensures-bind (AsksPassword (lookup "format" raw) t) P
                                          (format_of true t (lookup "format" raw)) _
                                          (format_of-password t (lookup "format" raw))
                                          (λ format w.
                                            Ensures-raise_if P
                                              (is_password_format format && not sensitive)
                                              manifest_error _
                                              (λ p.
                                                Ensures-raise_if P (any (λ f. f.key == key) fields)
                                                  manifest_error _
                                                  (λ fresh.
                                                    Ensures-after P (plain 120 (lookup "title" raw))
                                                      _
                                                      (λ title.
                                                        Ensures-after P
                                                          (plain 1000 (lookup "description" raw)) _
                                                          (λ description.
                                                            Ensures-after P
                                                            (plain 240 (lookup "placeholder" raw)) _
                                                            (λ placeholder.
                                                            Ensures-after P
                                                            (visibility 5 (lookup "visible_if" raw))
                                                            _
                                                            (λ visible.
                                                            let f : PluginPanelField = record {
                                                            key = key;
                                                            value_type = t;
                                                            title = title;
                                                            description = description;
                                                            required =
                                                            is_true (lookup "required" raw);
                                                            default = default;
                                                            choices = choices;
                                                            minimum = minimum;
                                                            maximum = maximum;
                                                            value_format = format;
                                                            placeholder = placeholder;
                                                            sensitive = sensitive;
                                                            visible_if = visible;
                                                            } in
                                                            let a =
                                                            IsUnique-append
                                                            (λ (x : PluginPanelField). x.key) fields
                                                            f fresh u in
                                                            let q =
                                                            guard_checks sensitive
                                                            (credential_shaped key) (is_string t)
                                                            (is_password (lookup "format" raw))
                                                            (mem "default" (keys raw)) format
                                                            default d s n w p in
                                                            let b =
                                                            all_append is_guarded fields f g q in
                                                            (a, b))))))))))))))))))))))

  pub panel_fields-ArePanelFields : (j : Json) → Ensures ArePanelFields (panel_fields greater j)
  unfolding panel_fields
  panel_fields-ArePanelFields j = Ensures-after ArePanelFields (sequence_of j) _ (λ items.
      collect-keeps ArePanelFields (panel_field greater) panel_field-keeps [] items (tt, refl))
