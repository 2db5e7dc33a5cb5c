-- ===== src/Settings/RoundTrip.antt =====
-- Decoding what was encoded.
use angelus.Prelude.{
  ℕ, suc, ◌≡◌, refl, ap, sym, ◌∙◌, subst, Bool, ◌∷◌, ok, ◌>>◌, inl, inr, IsUnique,
}
use angelus.Settings.Json.{
  ℤ, Float, Json, Jsons, Members, nil, cons, end, member, require_mapping, require_list,
  require_string, require_int, require_number, require_bool, keys, reject_unknown_keys,
}
use angelus.Settings.Schema.{
  Annotation, Annotations, stop, also, Fields, done, field, Value, Values, names, persisted_fields,
  is_none_type, assert_supported, assert_fields, assert_branches, assert_items, scalar_json,
  encode_value, encode_fields, encode_items, from_json,
}
use angelus.Settings.Decode.{
  size_of, item_count, decode_literal, decode_value, decode_fields, decode_branches, decode_each,
}
use angelus.Settings.Encoding.{
  all-mem_self, Lookups, Lookups-self, encode_value-from_json, encode_value-not_null,
}
use angelus.Settings.Fits.{Fits, FitsFields, FitsBranch, FitsEach}
use angelus.Settings.Parts.{
  >>-eq-ok, rest_supported, leb_refl, encode_value-scalar, enum_lookup-Chosen, literal-Chosen,
  all_restore, entries_restore, skip_branch,
}

module _ (of_int : ℤ → Float) (float_eq : Float → ℤ → Bool) where
  -- What is encoded without an error is decoded to the same value.
  abbrev pub Restores : Annotation → Value → Type 0
  Restores a v = (j : Json) × (encode_value v ≡ ok j) × (decode_value of_int float_eq a j ≡ ok v)

  -- The fields of a dataclass, read back from any object in which they can be looked up.
  abbrev RestoresFields : Fields → Values → Type 0
  RestoresFields fields vs =
      (ms : Members) × (encode_fields vs fields ≡ ok ms)
      × (keys ms ≡ names fields)
      × ((raw : Members) → Lookups raw ms → decode_fields of_int float_eq fields raw ≡ ok vs)

  mutual
    unfolding Fits assert_supported encode_value decode_value decode_literal from_json
        require_mapping require_list require_string require_int require_number require_bool
        reject_unknown_keys

    restores :
        (a : Annotation) (v : Value)
        → assert_supported a ≡ ok tt
        → Fits of_int float_eq a v
        → Restores a v
    restores Annotation.any_json v h (j, valid, e) =
        (j, rw e (encode_value-from_json j valid), rw (valid, e) refl)
    restores Annotation.path v h (p, e) = (Json.text p, rw e refl, ap ok (sym e))
    restores Annotation.none_type v h f = absurd f
    restores Annotation.unsupported v h f = absurd f
    restores Annotation.bool v h (b, e) = (Json.boolean b, rw e refl, ap ok (sym e))
    restores Annotation.int v h (n, e) = (Json.integer n, rw e refl, ap ok (sym e))
    restores Annotation.float v h (f, e, fin) = (Json.number f, rw (e, fin) refl, ap ok (sym e))
    restores Annotation.str v h (t, e) = (Json.text t, rw e refl, ap ok (sym e))
    restores (Annotation.enum scalars) v h (s, e, c) =
        (scalar_json s, rw e refl, enum_lookup-Chosen of_int float_eq s scalars c ∙ ap ok (sym e))
    restores (Annotation.literal scalars) v h (s, e, c) = (
      scalar_json s,
      rw e (encode_value-scalar s),
      rw (literal-Chosen of_int float_eq s scalars c) (ap ok (sym e)),
    )
    restores (Annotation.dataclass fields) v h (vs, e, u, fit) =
        let (p, q) = >>-eq-ok (persisted_fields fields) (assert_fields fields) h in
        let (ms, es, ks, ds) = fields_restore fields vs q fit in
        let unique_keys : IsUnique (keys ms) = subst IsUnique (sym ks) u in
        (
          Json.object ms,
          rw (e, p, q, es) refl,
          rw (p, ks, all-mem_self (names fields), ds ms (Lookups-self ms unique_keys))
              (ap ok (sym e)),
        )
    restores (Annotation.union arguments) v h (inl (n, e)) =
        (Json.null, rw e refl, rw n (ap ok (sym e)))
    restores (Annotation.union arguments) v h (inr (n, fit)) =
        let (j, e, d) = branch_restore arguments v h fit in
        (j, e, rw (encode_value-not_null v n e) d)
    restores (Annotation.list a) v h (vs, e, fit) =
        let (js, es, ds) =
          all_restore (Fits of_int float_eq a) (decode_value of_int float_eq a)
            (λ w f. restores a w h f) vs fit in
        (Json.array js, rw (e, es) refl, rw ds (ap ok (sym e)))
    restores (Annotation.tuple_of a) v h (vs, e, fit) =
        let (js, es, ds) =
          all_restore (Fits of_int float_eq a) (decode_value of_int float_eq a)
            (λ w f. restores a w h f) vs fit in
        (Json.array js, rw (e, es) refl, rw ds (ap ok (sym e)))
    restores (Annotation.tuple arguments) v h (vs, e, fit) =
        let (js, es, n, ds) = each_restore arguments vs h fit in
        (Json.array js, rw (e, es) refl, rw (n, leb_refl (size_of arguments), ds) (ap ok (sym e)))
    restores (Annotation.dict a) v h (es, e, fit) =
        let (ms, f, ds) =
          entries_restore (Fits of_int float_eq a) (decode_value of_int float_eq a)
            (λ w f. restores a w h f) es fit in
        (Json.object ms, rw (e, f) refl, rw ds (ap ok (sym e)))

    fields_restore :
        (fields : Fields) (vs : Values)
        → assert_fields fields ≡ ok tt
        → FitsFields of_int float_eq fields vs
        → RestoresFields fields vs
    fields_restore done vs h e = (end, rw e refl, refl, λ raw l. ap ok (sym e))
    fields_restore (field name init a fields) vs h (w, ws, e, f, fs) =
        let (p, q) = >>-eq-ok (assert_supported a) (assert_fields fields) h in
        let (j, ej, dj) = restores a w p f in
        let (ms, em, ks, ds) = fields_restore fields ws q fs in
        (
          member name j ms,
          rw (e, ej, em) refl,
          ap (λ t. name ∷ t) ks,
          λ raw l. rw (l.0, dj, ds raw l.1) (ap ok (sym e)),
        )

    branch_restore :
        (arguments : Annotations) (v : Value)
        → assert_branches arguments ≡ ok tt
        → FitsBranch of_int float_eq arguments v
        → (j : Json) × (encode_value v ≡ ok j)
          × (decode_branches of_int float_eq arguments j ≡ ok v)
    branch_restore stop v h f = absurd f
    branch_restore (also a arguments) v h (inl (n, f)) =
        let h' : (assert_supported a >> assert_branches arguments) ≡ ok tt = rw n at h in
        let (j, e, d) =
          restores a v (>>-eq-ok (assert_supported a) (assert_branches arguments) h').0 f in
        (j, e, rw (n, d) refl)
    branch_restore (also a arguments) v h (inr (refused, f)) =
        let h' =
          rest_supported (is_none_type a) (assert_supported a) (assert_branches arguments) h in
        let (j, e, d) = branch_restore arguments v h' f in
        (j, e, skip_branch of_int float_eq a arguments v j refused e ∙ d)

    each_restore :
        (arguments : Annotations) (vs : Values)
        → assert_items arguments ≡ ok tt
        → FitsEach of_int float_eq arguments vs
        → (js : Jsons) × (encode_items vs ≡ ok js)
          × (item_count js ≡ size_of arguments)
          × (decode_each of_int float_eq arguments js ≡ ok vs)
    each_restore stop vs h e = (nil, rw e refl, refl, ap ok (sym e))
    each_restore (also a arguments) vs h (w, ws, e, f, fs) =
        let (p, q) = >>-eq-ok (assert_supported a) (assert_items arguments) h in
        let (j, ej, dj) = restores a w p f in
        let (js, es, n, ds) = each_restore arguments ws q fs in
        (cons j js, rw (e, ej, es) refl, ap (λ (t : ℕ). suc t) n, rw (dj, ds) (ap ok (sym e)))

  -- A value that fits a supported annotation is encoded without an error, and decoding the
  -- document against the annotation gives the value back; a value fits a union if it is an
  -- allowed `None` or fits a branch before which no branch reads its document, and a dataclass
  -- if its field names differ and each field fits.
  pub decode-encode :
      (a : Annotation) (v : Value)
      → assert_supported a ≡ ok tt
      → Fits of_int float_eq a v
      → (j : Json) × (encode_value v ≡ ok j) × (decode_value of_int float_eq a j ≡ ok v)
  decode-encode a v h f = restores a v h f
