-- ===== src/Settings/Decoding.antt =====
-- What decoding gives has the annotation's type.
use angelus.Prelude.{
  ◌≡◌, refl, ap, Bool, true, false, List, [], ◌∷◌, ◌==◌, if◌then◌else◌, all, any, mem, not, leb,
  ◌&&◌, ok, err, ◌>>◌, raise_if, inl, inr, Ensures, Ensures-ok, Ensures-after, Ensures-bind,
  Ensures-raise_if, Bool-cases, eq_iff, arith,
}
use angelus.Settings.Json.{
  ℤ, Float, Json, Jsons, Members, nil, cons, end, member, Decoded, require_mapping, require_list,
  require_string, require_int, require_number, require_bool, get, keys, reject_unknown_keys,
  validate_json, missing_fields, wrong_size, null_refused,
}
use angelus.Settings.Schema.{
  Scalar, Annotation, Annotations, stop, also, Fields, done, field, Value, Values, names,
  persisted_fields, is_none_type, scalar_json, from_json,
}
use angelus.Settings.Decode.{
  is_null, nullable, size_of, item_count, first_of, require_member, decode_all, decode_entries,
  scalar_eq, enum_lookup, decode_literal, decode_value, decode_fields, decode_branches, decode_each,
}
use angelus.Settings.Fits.{Chosen, AllFit, EntriesFit}
use angelus.Settings.Typing.{
  AreTexts, IsTextual, AreTextual, AreTextualFields, HasType, FieldsHaveTypes, HasSomeType,
  HaveTypes,
}

Ensures-first_of :
    (P : Value → Type 0) (r s : Decoded Value)
    → Ensures P r
    → Ensures P s
    → Ensures P (first_of r s)
Ensures-first_of P (ok v) s h k = h
Ensures-first_of P (err e) s h k = k

Ensures-map :
    (P Q : Value → Type 0) (r : Decoded Value)
    → ((v : Value) → P v → Q v)
    → Ensures P r
    → Ensures Q r
Ensures-map P Q (ok v) f h = f v h
Ensures-map P Q (err e) f h = tt

decode_all-AllFit :
    (P : Value → Type 0) (f : Json → Decoded Value)
    → ((j : Json) → Ensures P (f j))
    → (js : Jsons) → Ensures (AllFit P) (decode_all f js)
unfolding decode_all
decode_all-AllFit P f h nil = tt
decode_all-AllFit P f h (cons j js) = Ensures-bind P (AllFit P) (f j) _ (h j) (λ v p.
    Ensures-bind (AllFit P) (AllFit P) (decode_all f js) _ (decode_all-AllFit P f h js)
      (λ vs ps. (p, ps)))

decode_entries-EntriesFit :
    (P : Value → Type 0) (f : Json → Decoded Value)
    → ((j : Json) → Ensures P (f j))
    → (ms : Members) → Ensures (EntriesFit P) (decode_entries f ms)
unfolding decode_entries
decode_entries-EntriesFit P f h end = tt
decode_entries-EntriesFit P f h (member key j ms) =
    Ensures-bind P (EntriesFit P) (f j) _ (h j) (λ v p.
      Ensures-bind (EntriesFit P) (EntriesFit P) (decode_entries f ms) _
        (decode_entries-EntriesFit P f h ms) (λ vs ps. (p, ps)))

module _ (of_int : ℤ → Float) (float_eq : Float → ℤ → Bool) where
  enum_lookup-HasType :
      (scalars : List Scalar) (j : Json)
      → Ensures (HasType (Annotation.enum scalars)) (enum_lookup of_int float_eq scalars j)
  unfolding enum_lookup HasType
  enum_lookup-HasType [] j = tt
  enum_lookup-HasType (s ∷ scalars) j = elim (Bool-cases (scalar_eq of_int float_eq s j)) [
    | inl p ↦ rw p (s, refl, inl refl)
    | inr p ↦ rw p (
        Ensures-map (HasType (Annotation.enum scalars)) (HasType (Annotation.enum (s ∷ scalars)))
          (enum_lookup of_int float_eq scalars j) (λ v h. (h.0, h.1, inr h.2))
          (enum_lookup-HasType scalars j))
  ]

  literal-Chosen :
      (scalars : List Scalar) (j : Json)
      → AreTexts scalars
      → any (λ s. scalar_eq of_int float_eq s j) scalars ≡ true
      → (s : Scalar) × (j ≡ scalar_json s) × Chosen s scalars
  unfolding scalar_eq
  literal-Chosen [] j t h = cc
  literal-Chosen (Scalar.integer n ∷ scalars) j t h = absurd t
  literal-Chosen (Scalar.text r ∷ scalars) (Json.text u) t h = elim (Bool-cases (r == u)) [
    | inl p ↦ (Scalar.text r, ap Json.text (ground (arith, eq_iff r u)), inl refl)
    | inr p ↦
        let h' : any (λ s. scalar_eq of_int float_eq s (Json.text u)) scalars ≡ true = rw p at h in
        let (s, e, c) = literal-Chosen scalars (Json.text u) t h' in (s, e, inr c)
  ]
  literal-Chosen (Scalar.text r ∷ scalars) Json.null t h =
      let (s, e, c) = literal-Chosen scalars Json.null t h in (s, e, inr c)
  literal-Chosen (Scalar.text r ∷ scalars) (Json.boolean b) t h =
      let (s, e, c) = literal-Chosen scalars (Json.boolean b) t h in (s, e, inr c)
  literal-Chosen (Scalar.text r ∷ scalars) (Json.integer n) t h =
      let (s, e, c) = literal-Chosen scalars (Json.integer n) t h in (s, e, inr c)
  literal-Chosen (Scalar.text r ∷ scalars) (Json.number n) t h =
      let (s, e, c) = literal-Chosen scalars (Json.number n) t h in (s, e, inr c)
  literal-Chosen (Scalar.text r ∷ scalars) (Json.array n) t h =
      let (s, e, c) = literal-Chosen scalars (Json.array n) t h in (s, e, inr c)
  literal-Chosen (Scalar.text r ∷ scalars) (Json.object n) t h =
      let (s, e, c) = literal-Chosen scalars (Json.object n) t h in (s, e, inr c)

  decode_literal-HasType :
      (scalars : List Scalar) (j : Json)
      → AreTexts scalars
      → Ensures (HasType (Annotation.literal scalars)) (decode_literal of_int float_eq scalars j)
  unfolding decode_literal HasType
  decode_literal-HasType scalars j t =
      elim (Bool-cases (any (λ s. scalar_eq of_int float_eq s j) scalars)) [
        | inl p ↦ let (s, e, c) = literal-Chosen scalars j t p in rw p (s, ap from_json e, c)
        | inr p ↦ rw p tt
      ]

  validated :
      (r : Decoded (Unit {0})) (j : Json)
      → validate_json j ≡ r
      → Ensures (HasType Annotation.any_json) (r >> ok (from_json j))
  unfolding HasType
  validated (ok tt) j e = (j, e, refl)
  validated (err x) j e = tt

  union_typed :
      (b n : Bool) (arguments : Annotations)
      → nullable arguments ≡ n
      → (r : Decoded Value) → Ensures (HasSomeType arguments) r
      → Ensures
          (HasType (Annotation.union arguments))
          (if b then if n then ok Value.null else err null_refused else r)
  unfolding HasType
  union_typed true true arguments e r h = inl (e, refl)
  union_typed true false arguments e r h = tt
  union_typed false n arguments e (ok v) h = inr h
  union_typed false n arguments e (err x) h = tt

  branch_typed :
      (a : Annotation) (arguments : Annotations) (b : Bool) (r s : Decoded Value)
      → Ensures (HasType a) r
      → Ensures (HasSomeType arguments) s
      → Ensures (HasSomeType (also a arguments)) (if b then s else first_of r s)
  unfolding HasType
  branch_typed a arguments true r (ok v) h k = inr k
  branch_typed a arguments true r (err e) h k = tt
  branch_typed a arguments false (ok v) s h k = inl h
  branch_typed a arguments false (err e) (ok v) h k = inr k
  branch_typed a arguments false (err e) (err x) h k = tt

  mutual
    unfolding decode_value HasType IsTextual

    pub decode_value-HasType :
        (a : Annotation) (j : Json)
        → IsTextual a
        → Ensures (HasType a) (decode_value of_int float_eq a j)
    decode_value-HasType Annotation.any_json j t = validated (validate_json j) j refl
    decode_value-HasType Annotation.path j t =
        Ensures-after (HasType Annotation.path) (require_string j) _ (λ p. (p, refl))
    decode_value-HasType Annotation.none_type j t = tt
    decode_value-HasType Annotation.unsupported j t = tt
    decode_value-HasType Annotation.bool j t =
        Ensures-after (HasType Annotation.bool) (require_bool j) _ (λ p. (p, refl))
    decode_value-HasType Annotation.int j t =
        Ensures-after (HasType Annotation.int) (require_int j) _ (λ p. (p, refl))
    decode_value-HasType Annotation.float j t =
        Ensures-after (HasType Annotation.float) (require_number of_int j) _ (λ p. (p, refl))
    decode_value-HasType Annotation.str j t =
        Ensures-after (HasType Annotation.str) (require_string j) _ (λ p. (p, refl))
    decode_value-HasType (Annotation.enum scalars) j t = enum_lookup-HasType scalars j
    decode_value-HasType (Annotation.literal scalars) j t = decode_literal-HasType scalars j t
    decode_value-HasType (Annotation.dataclass fields) j t =
        let P : Value → Type 0 = HasType (Annotation.dataclass fields) in
        Ensures-after P (require_mapping j) _ (λ raw.
          Ensures-after P (persisted_fields fields) _ (λ _.
            Ensures-after P (reject_unknown_keys raw (names fields)) _ (λ _.
              Ensures-after P
                (raise_if (not (all (λ name. mem name (keys raw)) (names fields))) missing_fields) _
                (λ _.
                  Ensures-bind (FieldsHaveTypes fields) P (decode_fields of_int float_eq fields raw)
                    _ (decode_fields-types fields raw t) (λ vs h. (vs, refl, h))))))
    decode_value-HasType (Annotation.union arguments) j t =
        union_typed (is_null j) (nullable arguments) arguments refl
          (decode_branches of_int float_eq arguments j) (decode_branches-HasType arguments j t)
    decode_value-HasType (Annotation.list a) j t =
        let P : Value → Type 0 = HasType (Annotation.list a) in
        Ensures-after P (require_list j) _ (λ js.
          Ensures-bind (AllFit (HasType a)) P (decode_all (decode_value of_int float_eq a) js) _
            (decode_all-AllFit (HasType a) (decode_value of_int float_eq a)
              (λ i. decode_value-HasType a i t) js)
            (λ vs h. (vs, refl, h)))
    decode_value-HasType (Annotation.tuple_of a) j t =
        let P : Value → Type 0 = HasType (Annotation.tuple_of a) in
        Ensures-after P (require_list j) _ (λ js.
          Ensures-bind (AllFit (HasType a)) P (decode_all (decode_value of_int float_eq a) js) _
            (decode_all-AllFit (HasType a) (decode_value of_int float_eq a)
              (λ i. decode_value-HasType a i t) js)
            (λ vs h. (vs, refl, h)))
    decode_value-HasType (Annotation.tuple arguments) j t =
        let P : Value → Type 0 = HasType (Annotation.tuple arguments) in
        Ensures-after P (require_list j) _ (λ js.
          Ensures-raise_if P
            (not
              (leb (item_count js) (size_of arguments) && leb (size_of arguments) (item_count js)))
            wrong_size _
            (λ same.
              Ensures-bind (HaveTypes arguments) P (decode_each of_int float_eq arguments js) _
                (decode_each-types arguments js (ground arith) t) (λ vs h. (vs, refl, h))))
    decode_value-HasType (Annotation.dict a) j t =
        let P : Value → Type 0 = HasType (Annotation.dict a) in
        Ensures-after P (require_mapping j) _ (λ ms.
          Ensures-bind (EntriesFit (HasType a)) P
            (decode_entries (decode_value of_int float_eq a) ms) _
            (decode_entries-EntriesFit (HasType a) (decode_value of_int float_eq a)
              (λ i. decode_value-HasType a i t) ms)
            (λ es h. (es, refl, h)))

    decode_fields-types :
        (fields : Fields) (raw : Members)
        → AreTextualFields fields
        → Ensures (FieldsHaveTypes fields) (decode_fields of_int float_eq fields raw)
    decode_fields-types done raw t = refl
    decode_fields-types (field name init a fields) raw (t, ts) =
        let P : Values → Type 0 = FieldsHaveTypes (field name init a fields) in
        Ensures-after P (require_member (get name raw)) _ (λ j.
          Ensures-bind (HasType a) P (decode_value of_int float_eq a j) _
            (decode_value-HasType a j t)
            (λ v h.
              Ensures-bind (FieldsHaveTypes fields) P (decode_fields of_int float_eq fields raw) _
                (decode_fields-types fields raw ts) (λ vs hs. (v, vs, refl, h, hs))))

    decode_branches-HasType :
        (arguments : Annotations) (j : Json)
        → AreTextual arguments
        → Ensures (HasSomeType arguments) (decode_branches of_int float_eq arguments j)
    decode_branches-HasType stop j t = tt
    decode_branches-HasType (also a arguments) j (t, ts) =
        branch_typed a arguments (is_none_type a) (decode_value of_int float_eq a j)
          (decode_branches of_int float_eq arguments j) (decode_value-HasType a j t)
          (decode_branches-HasType arguments j ts)

    decode_each-types :
        (arguments : Annotations) (js : Jsons)
        → item_count js ≡ size_of arguments
        → AreTextual arguments
        → Ensures (HaveTypes arguments) (decode_each of_int float_eq arguments js)
    decode_each-types stop js e t = refl
    decode_each-types (also a arguments) nil e t = absurd (omega arith)
    decode_each-types (also a arguments) (cons j js) e (t, ts) =
        let P : Values → Type 0 = HaveTypes (also a arguments) in
        Ensures-bind (HasType a) P (decode_value of_int float_eq a j) _ (decode_value-HasType a j t)
          (λ v h.
            Ensures-bind (HaveTypes arguments) P (decode_each of_int float_eq arguments js) _
              (decode_each-types arguments js (omega arith) ts) (λ vs hs. (v, vs, refl, h, hs)))

  -- Whatever document is decoded against an annotation whose `Literal` arguments are texts, a
  -- value that comes out has the type of the annotation, at every depth.
  pub decode_value-typed :
      (a : Annotation) (j : Json) (v : Value)
      → IsTextual a
      → decode_value of_int float_eq a j ≡ ok v
      → HasType a v
  decode_value-typed a j v t e =
      Ensures-ok (HasType a) (decode_value of_int float_eq a j) (decode_value-HasType a j t) e
