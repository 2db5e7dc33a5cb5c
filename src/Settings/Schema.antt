-- ===== src/Settings/Schema.antt =====
-- json_schema.py: documents from dataclasses and back. An annotation is a finite tree, so a
-- dataclass that names itself appears unrolled; a forward reference is `any_json`. What no
-- annotation of the module's list spells, such as `Any` or a bare `list`, is `unsupported`, and a
-- value of another type, or a dict with a key that is no text, is `unencodable`.
use angelus.Prelude.{Bool, true, false, List, [], ◌∷◌, String, if◌then◌else◌, ok, err, ◌>>=◌, ◌>>◌}
use angelus.Settings.Json.{
  ℤ, Float, is_finite, Json, Jsons, Members, nil, cons, end, member, Decoded,
  unsupported_annotation, no_representation, init_false, not_finite,
}

-- An argument of `Literal`, or the value of a member of an Enum.
pub data Scalar : Type 0 where
  text : String → Scalar
  integer : ℤ → Scalar

mutual
  pub data Annotation : Type 0 where
    any_json path none_type bool int float str unsupported : Annotation
    enum literal : List Scalar → Annotation
    dataclass : Fields → Annotation
    union tuple : Annotations → Annotation
    list tuple_of dict : Annotation → Annotation

  pub data Annotations : Type 0 where
    stop : Annotations
    also : Annotation → Annotations → Annotations

  -- The fields of a dataclass: name, `init`, and annotation.
  pub data Fields : Type 0 where
    done : Fields
    field : String → Bool → Annotation → Fields → Fields

mutual
  pub data Value : Type 0 where
    null unencodable : Value
    boolean : Bool → Value
    integer : ℤ → Value
    number : Float → Value
    text path : String → Value
    enum_member : Scalar → Value
    list tuple : Values → Value
    dict : Entries → Value
    instance_of : Fields → Values → Value

  pub data Values : Type 0 where
    no_values : Values
    value : Value → Values → Values

  pub data Entries : Type 0 where
    no_entries : Entries
    entry : String → Value → Entries → Entries

abbrev pub names : Fields → List String
names done = []
names (field name _ _ fields) = name ∷ names fields

-- `_persisted_fields`, of which only the check is left here.
unfoldable pub persisted_fields : Fields → Decoded (Unit {0})
persisted_fields done = ok tt
persisted_fields (field _ true _ fields) = persisted_fields fields
persisted_fields (field _ false _ fields) = err init_false

abbrev pub is_none_type : Annotation → Bool
is_none_type none_type = true
is_none_type any_json = false
is_none_type path = false
is_none_type bool = false
is_none_type int = false
is_none_type float = false
is_none_type str = false
is_none_type unsupported = false
is_none_type (enum _) = false
is_none_type (literal _) = false
is_none_type (dataclass _) = false
is_none_type (union _) = false
is_none_type (tuple _) = false
is_none_type (list _) = false
is_none_type (tuple_of _) = false
is_none_type (dict _) = false

-- `_assert_supported`. An annotation that was seen is one that was accepted, so `seen` is left out.
unfoldable mutual
  pub assert_supported : Annotation → Decoded (Unit {0})
  assert_supported any_json = ok tt
  assert_supported path = ok tt
  assert_supported (enum _) = ok tt
  assert_supported (literal _) = ok tt
  assert_supported (dataclass fields) = persisted_fields fields >> assert_fields fields
  assert_supported (union arguments) = assert_branches arguments
  assert_supported (list a) = assert_supported a
  assert_supported (tuple_of a) = assert_supported a
  assert_supported (tuple arguments) = assert_items arguments
  assert_supported (dict a) = assert_supported a
  assert_supported bool = ok tt
  assert_supported int = ok tt
  assert_supported float = ok tt
  assert_supported str = ok tt
  assert_supported none_type = err unsupported_annotation
  assert_supported unsupported = err unsupported_annotation

  pub assert_fields : Fields → Decoded (Unit {0})
  assert_fields done = ok tt
  assert_fields (field _ _ a fields) = assert_supported a >> assert_fields fields

  -- `None` is no branch to support.
  pub assert_branches : Annotations → Decoded (Unit {0})
  assert_branches stop = ok tt
  assert_branches (also a arguments) =
      let rest = assert_branches arguments in
      if is_none_type a then rest else assert_supported a >> rest

  pub assert_items : Annotations → Decoded (Unit {0})
  assert_items stop = ok tt
  assert_items (also a arguments) = assert_supported a >> assert_items arguments

abbrev pub scalar_json : Scalar → Json
scalar_json (text t) = Json.text t
scalar_json (integer n) = Json.integer n

unfoldable mutual
  pub encode_value : Value → Decoded Json
  encode_value (instance_of fields vs) =
      persisted_fields fields
      >> assert_fields fields
      >> (encode_fields vs fields >>= λ ms. ok (Json.object ms))
  encode_value (enum_member s) = ok (scalar_json s)
  encode_value null = ok Json.null
  encode_value (boolean b) = ok (Json.boolean b)
  encode_value (text t) = ok (Json.text t)
  encode_value (path p) = ok (Json.text p)
  encode_value (integer n) = ok (Json.integer n)
  encode_value (number f) = if is_finite f then ok (Json.number f) else err not_finite
  encode_value (list vs) = encode_items vs >>= λ js. ok (Json.array js)
  encode_value (tuple vs) = encode_items vs >>= λ js. ok (Json.array js)
  encode_value (dict entries) = encode_entries entries >>= λ ms. ok (Json.object ms)
  encode_value unencodable = err no_representation

  pub encode_fields : Values → Fields → Decoded Members
  encode_fields (value v vs) (field name _ _ fields) =
      encode_value v >>= λ j. encode_fields vs fields >>= λ ms. ok (member name j ms)
  encode_fields (value v vs) done = ok end
  encode_fields no_values fields = ok end

  pub encode_items : Values → Decoded Jsons
  encode_items no_values = ok nil
  encode_items (value v vs) = encode_value v >>= λ j. encode_items vs >>= λ js. ok (cons j js)

  pub encode_entries : Entries → Decoded Members
  encode_entries no_entries = ok end
  encode_entries (entry key v entries) =
      encode_value v >>= λ j. encode_entries entries >>= λ ms. ok (member key j ms)

-- What `json.loads` gives is a Python value as it is.
unfoldable mutual
  pub from_json : Json → Value
  from_json Json.null = null
  from_json (Json.boolean b) = boolean b
  from_json (Json.integer n) = integer n
  from_json (Json.number f) = number f
  from_json (Json.text t) = text t
  from_json (Json.array items) = list (from_items items)
  from_json (Json.object members) = dict (from_members members)

  pub from_items : Jsons → Values
  from_items nil = no_values
  from_items (cons j js) = value (from_json j) (from_items js)

  pub from_members : Members → Entries
  from_members end = no_entries
  from_members (member key j ms) = entry key (from_json j) (from_members ms)
