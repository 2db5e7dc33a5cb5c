-- ===== src/Settings/Tests.antt =====
-- A catalog that is written and read back, and the theorems applied to it. Integers of the test
-- documents are small enough to be floats.
use angelus.Prelude.{◌≡◌, refl, Bool, true, false, [], ◌∷◌, ok, inl, inr}
use angelus.Settings.Json.{
  ℤ, pos, Float, finite, infinite, nan, Json, nil, cons, end, member, require_mapping, require_list,
  require_int, reject_unknown_keys,
}
use angelus.Settings.Schema.{
  Scalar, Annotation, stop, also, Fields, done, field, Value, no_values, value, persisted_fields,
  assert_supported, encode_value, from_json,
}
use angelus.Settings.Decode.{same_int, scalar_eq, decode_literal, decode_all, decode_value}
use angelus.Settings.Fits.{Fits}
use angelus.Settings.RoundTrip.{decode-encode}
use angelus.Settings.Typing.{HasType, IsTextual}
use angelus.Settings.Decoding.{decode_value-typed}

abbrev to_float : ℤ → Float
to_float n = finite n (pos 0)

abbrev float_is : Float → ℤ → Bool
float_is (finite m e) n = same_int m n
float_is infinite n = false
float_is nan n = false

-- `kind: Literal["api", "local"]`, `name: str | None`, `ports: list[int]`.
abbrev connector : Fields
connector = field "kind" true (Annotation.literal (Scalar.text "api" ∷ Scalar.text "local" ∷ [])) (
    field "name" true (Annotation.union (also Annotation.str (also Annotation.none_type stop)))
      (field "ports" true (Annotation.list Annotation.int) done))

abbrev example : Value
example = Value.instance_of connector (
    value (Value.text "local")
      (value Value.null (value (Value.list (value (Value.integer (pos 80)) no_values)) no_values)))

abbrev document : Json
document = Json.object (
    member "kind" (Json.text "local") (
      member "name" Json.null (member "ports" (Json.array (cons (Json.integer (pos 80)) nil)) end)))

written : encode_value example ≡ ok document
unfolding encode_value assert_supported persisted_fields
written = refl

read_back : decode_value to_float float_is (Annotation.dataclass connector) document ≡ ok example
unfolding decode_value persisted_fields require_mapping require_list require_int reject_unknown_keys
    decode_literal decode_all from_json scalar_eq
read_back = refl

supported : assert_supported (Annotation.dataclass connector) ≡ ok tt
unfolding assert_supported persisted_fields
supported = refl

fits : Fits to_float float_is (Annotation.dataclass connector) example
unfolding Fits from_json
fits = (
  value (Value.text "local")
      (value Value.null (value (Value.list (value (Value.integer (pos 80)) no_values)) no_values)),
  refl,
  (refl, (refl, (refl, tt))),
  (
    Value.text "local",
    value Value.null (value (Value.list (value (Value.integer (pos 80)) no_values)) no_values),
    refl,
    (Scalar.text "local", refl, inr (inl refl)),
    (
      Value.null,
      value (Value.list (value (Value.integer (pos 80)) no_values)) no_values,
      refl,
      inl (refl, refl),
      (
        Value.list (value (Value.integer (pos 80)) no_values),
        no_values,
        refl,
        (value (Value.integer (pos 80)) no_values, refl, ((pos 80, refl), tt)),
        refl,
      ),
    ),
  ),
)

decode-encode_example :
    (j : Json) × (encode_value example ≡ ok j)
    × (decode_value to_float float_is (Annotation.dataclass connector) j ≡ ok example)
decode-encode_example =
    decode-encode to_float float_is (Annotation.dataclass connector) example supported fits

decode_value-typed_example : HasType (Annotation.dataclass connector) example
unfolding IsTextual
decode_value-typed_example =
    decode_value-typed to_float float_is (Annotation.dataclass connector) document example
      (tt, ((tt, (tt, tt)), (tt, tt))) read_back
