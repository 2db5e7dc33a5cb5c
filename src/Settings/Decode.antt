-- ===== src/Settings/Decode.antt =====
-- json_schema.py: documents read against the annotations of dataclasses.
use angelus.Prelude.{
  ℕ, suc, Bool, true, false, ◌&&◌, ◌||◌, not, Option, none, some, List, [], ◌∷◌, ◌==◌,
  if◌then◌else◌, leb, all, any, mem, ok, err, ◌>>=◌, ◌>>◌, raise_if,
}
use angelus.Settings.Json.{
  ℤ, pos, negsuc, Float, Json, Jsons, Members, nil, cons, end, member, Decoded, missing_fields,
  not_a_choice, not_a_member, null_refused, no_branch, wrong_size, unsupported_annotation,
  require_mapping, require_list, require_string, require_int, require_number, require_bool, get,
  keys, reject_unknown_keys, validate_json,
}
use angelus.Settings.Schema.{
  Scalar, Annotation, Annotations, stop, also, Fields, done, field, Value, Values, no_values, value,
  Entries, no_entries, entry, names, persisted_fields, is_none_type, from_json, any_json, path,
  none_type, bool, int, float, str, unsupported, enum, literal, dataclass, union, tuple, list,
  tuple_of, dict, null, boolean, integer, number, text, enum_member, instance_of,
}

-- `a == b` on integers.
abbrev pub same_int : ℤ → ℤ → Bool
same_int (pos a) (pos b) = leb a b && leb b a
same_int (negsuc a) (negsuc b) = leb a b && leb b a
same_int (pos _) (negsuc _) = false
same_int (negsuc _) (pos _) = false

abbrev pub bool_int : Bool → ℤ
bool_int true = pos 1
bool_int false = pos 0

abbrev pub is_null : Json → Bool
is_null Json.null = true
is_null (Json.boolean _) = false
is_null (Json.integer _) = false
is_null (Json.number _) = false
is_null (Json.text _) = false
is_null (Json.array _) = false
is_null (Json.object _) = false

-- The branches of a union that are not `None`.
abbrev pub nullable : Annotations → Bool
nullable stop = false
nullable (also a arguments) = is_none_type a || nullable arguments

abbrev pub size_of : Annotations → ℕ
size_of stop = 0
size_of (also _ arguments) = suc (size_of arguments)

abbrev pub item_count : Jsons → ℕ
item_count nil = 0
item_count (cons _ items) = suc (item_count items)

abbrev pub first_of : Decoded Value → Decoded Value → Decoded Value
first_of (ok v) other = ok v
first_of (err _) other = other

abbrev pub require_member : Option Json → Decoded Json
require_member none = err missing_fields
require_member (some j) = ok j

unfoldable pub decode_all : (Json → Decoded Value) → Jsons → Decoded Values
decode_all f nil = ok no_values
decode_all f (cons j js) = f j >>= λ v. decode_all f js >>= λ vs. ok (value v vs)

unfoldable pub decode_entries : (Json → Decoded Value) → Members → Decoded Entries
decode_entries f end = ok no_entries
decode_entries f (member key j ms) = f j >>= λ v. decode_entries f ms >>= λ es. ok (entry key v es)

-- Python's `float(n)`, and its `==` between a float and an integer.
module _ (of_int : ℤ → Float) (float_eq : Float → ℤ → Bool) where
  -- `scalar == value`; in Python `True == 1` and `1.0 == 1`.
  unfoldable pub scalar_eq : Scalar → Json → Bool
  scalar_eq (text s) (Json.text t) = s == t
  scalar_eq (text s) Json.null = false
  scalar_eq (text s) (Json.boolean _) = false
  scalar_eq (text s) (Json.integer _) = false
  scalar_eq (text s) (Json.number _) = false
  scalar_eq (text s) (Json.array _) = false
  scalar_eq (text s) (Json.object _) = false
  scalar_eq (integer n) (Json.integer m) = same_int n m
  scalar_eq (integer n) (Json.boolean b) = same_int n (bool_int b)
  scalar_eq (integer n) (Json.number f) = float_eq f n
  scalar_eq (integer n) Json.null = false
  scalar_eq (integer n) (Json.text _) = false
  scalar_eq (integer n) (Json.array _) = false
  scalar_eq (integer n) (Json.object _) = false

  -- `annotation(value)`: the member of an Enum by its value.
  unfoldable pub enum_lookup : List Scalar → Json → Decoded Value
  unfolding scalar_eq
  enum_lookup [] j = err not_a_member
  enum_lookup (s ∷ scalars) j =
      let rest = enum_lookup scalars j in if scalar_eq s j then ok (enum_member s) else rest

  unfoldable pub decode_literal : List Scalar → Json → Decoded Value
  unfolding scalar_eq from_json
  decode_literal scalars j =
      if any (λ s. scalar_eq s j) scalars then ok (from_json j) else err not_a_choice

  unfoldable mutual
    pub decode_value : Annotation → Json → Decoded Value
    decode_value any_json j = validate_json j >> ok (from_json j)
    decode_value path j = require_string j >>= λ t. ok (path t)
    decode_value (enum scalars) j = enum_lookup scalars j
    decode_value (dataclass fields) j = do
      raw ← require_mapping j
      persisted_fields fields
      reject_unknown_keys raw (names fields)
      raise_if (not (all (λ name. mem name (keys raw)) (names fields))) missing_fields
      vs ← decode_fields fields raw
      ok (instance_of fields vs)
    decode_value (literal scalars) j = decode_literal scalars j
    decode_value (union arguments) j =
        let branches = decode_branches arguments j in
        if is_null j then if nullable arguments then ok null else err null_refused else branches
    decode_value (list a) j =
        require_list j >>= λ js. decode_all (decode_value a) js >>= λ vs. ok (list vs)
    decode_value (tuple_of a) j =
        require_list j >>= λ js. decode_all (decode_value a) js >>= λ vs. ok (tuple vs)
    decode_value (tuple arguments) j = do
      js ← require_list j
      raise_if
          (not (leb (item_count js) (size_of arguments) && leb (size_of arguments) (item_count js)))
          wrong_size
      vs ← decode_each arguments js
      ok (tuple vs)
    decode_value (dict a) j =
        require_mapping j >>= λ ms. decode_entries (decode_value a) ms >>= λ es. ok (dict es)
    decode_value bool j = require_bool j >>= λ b. ok (boolean b)
    decode_value int j = require_int j >>= λ n. ok (integer n)
    decode_value float j = require_number of_int j >>= λ f. ok (number f)
    decode_value str j = require_string j >>= λ t. ok (text t)
    decode_value none_type j = err unsupported_annotation
    decode_value unsupported j = err unsupported_annotation

    pub decode_fields : Fields → Members → Decoded Values
    decode_fields done raw = ok no_values
    decode_fields (field name _ a fields) raw = do
      j ← require_member (get name raw)
      v ← decode_value a j
      vs ← decode_fields fields raw
      ok (value v vs)

    pub decode_branches : Annotations → Json → Decoded Value
    decode_branches stop j = err no_branch
    decode_branches (also a arguments) j =
        let rest = decode_branches arguments j in
        if is_none_type a then rest else first_of (decode_value a j) rest

    pub decode_each : Annotations → Jsons → Decoded Values
    decode_each (also a arguments) (cons j js) = do
      v ← decode_value a j
      vs ← decode_each arguments js
      ok (value v vs)
    decode_each (also a arguments) nil = ok no_values
    decode_each stop js = ok no_values
