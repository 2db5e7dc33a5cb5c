-- ===== src/Settings/Typing.antt =====
-- The type of what is decoded.
use angelus.Prelude.{◌≡◌, Bool, true, List, [], ◌∷◌, ok, ◌⊎◌}
use angelus.Settings.Json.{ℤ, Float, Json, validate_json}
use angelus.Settings.Schema.{
  Scalar, Annotation, Annotations, stop, also, Fields, done, field, Value, Values, no_values, value,
  Entries, scalar_json, from_json,
}
use angelus.Settings.Decode.{nullable}
use angelus.Settings.Fits.{Chosen, AllFit, EntriesFit, IsNull}

abbrev pub AreTexts : List Scalar → Type 0
AreTexts [] = Unit
AreTexts (Scalar.text _ ∷ scalars) = AreTexts scalars
AreTexts (Scalar.integer _ ∷ scalars) = ⊥

unfoldable mutual
  -- The arguments of `Literal` are texts.
  pub IsTextual : Annotation → Type 0
  IsTextual (Annotation.literal scalars) = AreTexts scalars
  IsTextual (Annotation.dataclass fields) = AreTextualFields fields
  IsTextual (Annotation.union arguments) = AreTextual arguments
  IsTextual (Annotation.tuple arguments) = AreTextual arguments
  IsTextual (Annotation.list a) = IsTextual a
  IsTextual (Annotation.tuple_of a) = IsTextual a
  IsTextual (Annotation.dict a) = IsTextual a
  IsTextual (Annotation.enum _) = Unit
  IsTextual Annotation.any_json = Unit
  IsTextual Annotation.path = Unit
  IsTextual Annotation.none_type = Unit
  IsTextual Annotation.bool = Unit
  IsTextual Annotation.int = Unit
  IsTextual Annotation.float = Unit
  IsTextual Annotation.str = Unit
  IsTextual Annotation.unsupported = Unit

  pub AreTextual : Annotations → Type 0
  AreTextual stop = Unit
  AreTextual (also a arguments) = IsTextual a × AreTextual arguments

  pub AreTextualFields : Fields → Type 0
  AreTextualFields done = Unit
  AreTextualFields (field _ _ a fields) = IsTextual a × AreTextualFields fields

-- The values of an annotation's type.
unfoldable mutual
  pub HasType : Annotation → Value → Type 0
  HasType Annotation.any_json v = (j : Json) × (validate_json j ≡ ok tt) × (v ≡ from_json j)
  HasType Annotation.path v = (p : _) × (v ≡ Value.path p)
  HasType Annotation.none_type v = ⊥
  HasType Annotation.unsupported v = ⊥
  HasType Annotation.bool v = (b : Bool) × (v ≡ Value.boolean b)
  HasType Annotation.int v = (n : ℤ) × (v ≡ Value.integer n)
  HasType Annotation.float v = (f : Float) × (v ≡ Value.number f)
  HasType Annotation.str v = (t : _) × (v ≡ Value.text t)
  HasType (Annotation.enum scalars) v = (s : Scalar) × (v ≡ Value.enum_member s) × Chosen s scalars
  HasType (Annotation.literal scalars) v =
      (s : Scalar) × (v ≡ from_json (scalar_json s)) × Chosen s scalars
  HasType (Annotation.dataclass fields) v =
      (vs : Values) × (v ≡ Value.instance_of fields vs) × FieldsHaveTypes fields vs
  HasType (Annotation.union arguments) v =
      ((nullable arguments ≡ true) × IsNull v) ⊎ HasSomeType arguments v
  HasType (Annotation.list a) v = (vs : Values) × (v ≡ Value.list vs) × AllFit (HasType a) vs
  HasType (Annotation.tuple_of a) v = (vs : Values) × (v ≡ Value.tuple vs) × AllFit (HasType a) vs
  HasType (Annotation.tuple arguments) v =
      (vs : Values) × (v ≡ Value.tuple vs) × HaveTypes arguments vs
  HasType (Annotation.dict a) v = (es : Entries) × (v ≡ Value.dict es) × EntriesFit (HasType a) es

  pub FieldsHaveTypes : Fields → Values → Type 0
  FieldsHaveTypes done vs = vs ≡ no_values
  FieldsHaveTypes (field _ _ a fields) vs =
      (w : Value) × (ws : Values) × (vs ≡ value w ws) × HasType a w × FieldsHaveTypes fields ws

  pub HasSomeType : Annotations → Value → Type 0
  HasSomeType stop v = ⊥
  HasSomeType (also a arguments) v = HasType a v ⊎ HasSomeType arguments v

  pub HaveTypes : Annotations → Values → Type 0
  HaveTypes stop vs = vs ≡ no_values
  HaveTypes (also a arguments) vs =
      (w : Value) × (ws : Values) × (vs ≡ value w ws) × HasType a w × HaveTypes arguments ws
