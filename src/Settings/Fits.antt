-- ===== src/Settings/Fits.antt =====
-- The values that an annotation of a dataclass field describes.
use angelus.Prelude.{◌≡◌, Bool, true, false, List, [], ◌∷◌, String, ok, err, ◌≢◌, ◌⊎◌, IsUnique}
use angelus.Settings.Json.{ℤ, Float, is_finite, Json, SchemaError, validate_json}
use angelus.Settings.Schema.{
  Scalar, Annotation, Annotations, stop, also, Fields, done, field, Value, Values, no_values, value,
  Entries, no_entries, entry, names, is_none_type, scalar_json, encode_value, from_json,
}
use angelus.Settings.Decode.{nullable, decode_value}

abbrev pub Chosen : Scalar → List Scalar → Type 0
Chosen s [] = ⊥
Chosen s (r ∷ scalars) = (s ≡ r) ⊎ Chosen s scalars

abbrev pub AllFit : (Value → Type 0) → Values → Type 0
AllFit P no_values = Unit
AllFit P (value v vs) = P v × AllFit P vs

abbrev pub EntriesFit : (Value → Type 0) → Entries → Type 0
EntriesFit P no_entries = Unit
EntriesFit P (entry key v entries) = P v × EntriesFit P entries

abbrev pub IsNull : Value → Type 0
IsNull v = v ≡ Value.null

module _ (of_int : ℤ → Float) (float_eq : Float → ℤ → Bool) where
  -- A branch that does not read what `v` is written as.
  abbrev pub Refuses : Annotation → Value → Type 0
  Refuses a v =
      (is_none_type a ≡ true)
      ⊎ ((j : Json)
          → encode_value v ≡ ok j
          → (e : SchemaError) × (decode_value of_int float_eq a j ≡ err e))

  unfoldable mutual
    -- The values of an annotation. In a union, no earlier branch reads the document of a value.
    pub Fits : Annotation → Value → Type 0
    Fits Annotation.any_json v = (j : Json) × (validate_json j ≡ ok tt) × (v ≡ from_json j)
    Fits Annotation.path v = (p : String) × (v ≡ Value.path p)
    Fits Annotation.none_type v = ⊥
    Fits Annotation.bool v = (b : Bool) × (v ≡ Value.boolean b)
    Fits Annotation.int v = (n : ℤ) × (v ≡ Value.integer n)
    Fits Annotation.float v = (f : Float) × (v ≡ Value.number f) × (is_finite f ≡ true)
    Fits Annotation.str v = (t : String) × (v ≡ Value.text t)
    Fits Annotation.unsupported v = ⊥
    Fits (Annotation.enum scalars) v = (s : Scalar) × (v ≡ Value.enum_member s) × Chosen s scalars
    Fits (Annotation.literal scalars) v =
        (s : Scalar) × (v ≡ from_json (scalar_json s)) × Chosen s scalars
    Fits (Annotation.dataclass fields) v =
        (vs : Values) × (v ≡ Value.instance_of fields vs)
        × IsUnique (names fields)
        × FitsFields fields vs
    Fits (Annotation.union arguments) v =
        ((nullable arguments ≡ true) × IsNull v) ⊎ ((v ≢ Value.null) × FitsBranch arguments v)
    Fits (Annotation.list a) v = (vs : Values) × (v ≡ Value.list vs) × AllFit (Fits a) vs
    Fits (Annotation.tuple_of a) v = (vs : Values) × (v ≡ Value.tuple vs) × AllFit (Fits a) vs
    Fits (Annotation.tuple arguments) v =
        (vs : Values) × (v ≡ Value.tuple vs) × FitsEach arguments vs
    Fits (Annotation.dict a) v = (es : Entries) × (v ≡ Value.dict es) × EntriesFit (Fits a) es

    pub FitsFields : Fields → Values → Type 0
    FitsFields done vs = vs ≡ no_values
    FitsFields (field name _ a fields) vs =
        (w : Value) × (ws : Values) × (vs ≡ value w ws) × Fits a w × FitsFields fields ws

    pub FitsBranch : Annotations → Value → Type 0
    FitsBranch stop v = ⊥
    FitsBranch (also a arguments) v =
        ((is_none_type a ≡ false) × Fits a v) ⊎ (Refuses a v × FitsBranch arguments v)

    pub FitsEach : Annotations → Values → Type 0
    FitsEach stop vs = vs ≡ no_values
    FitsEach (also a arguments) vs =
        (w : Value) × (ws : Values) × (vs ≡ value w ws) × Fits a w × FitsEach arguments ws
