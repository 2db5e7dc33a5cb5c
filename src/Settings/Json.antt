-- ===== src/Settings/Json.antt =====
-- json_store.py: JSON values, as `json.loads` gives them, and the checks that accept them. The
-- paths in the error messages are left out.
use angelus.Prelude.{
  ℕ, Bool, true, false, Option, none, some, List, [], ◌∷◌, String, ◌==◌, if◌then◌else◌, all, mem,
  Result, ok, err, ◌>>◌,
}

-- `negsuc n` is -(n + 1).
pub data ℤ : Type 0 where
  pos negsuc : ℕ → ℤ

-- A double: a finite one is its significand times a power of two.
pub data Float : Type 0 where
  finite : ℤ → ℤ → Float
  infinite nan : Float

abbrev pub is_finite : Float → Bool
is_finite (finite _ _) = true
is_finite infinite = false
is_finite nan = false

mutual
  pub data Json : Type 0 where
    null : Json
    boolean : Bool → Json
    integer : ℤ → Json
    number : Float → Json
    text : String → Json
    array : Jsons → Json
    object : Members → Json

  pub data Jsons : Type 0 where
    nil : Jsons
    cons : Json → Jsons → Jsons

  pub data Members : Type 0 where
    end : Members
    member : String → Json → Members → Members

-- `JsonSchemaError`, with the check that raised it.
pub data SchemaError : Type 0 where
  not_an_object unknown_fields missing_fields not_a_string not_an_integer : SchemaError
  not_a_number not_an_array not_a_boolean not_finite not_a_choice not_a_member : SchemaError
  null_refused no_branch wrong_size unsupported_annotation no_representation init_false :
      SchemaError

abbrev pub Decoded : Type 0 → Type 0
Decoded A = Result SchemaError A

unfoldable pub require_mapping : Json → Decoded Members
require_mapping (object members) = ok members
require_mapping null = err not_an_object
require_mapping (boolean _) = err not_an_object
require_mapping (integer _) = err not_an_object
require_mapping (number _) = err not_an_object
require_mapping (text _) = err not_an_object
require_mapping (array _) = err not_an_object

unfoldable pub require_list : Json → Decoded Jsons
require_list (array items) = ok items
require_list null = err not_an_array
require_list (boolean _) = err not_an_array
require_list (integer _) = err not_an_array
require_list (number _) = err not_an_array
require_list (text _) = err not_an_array
require_list (object _) = err not_an_array

unfoldable pub require_string : Json → Decoded String
require_string (text t) = ok t
require_string null = err not_a_string
require_string (boolean _) = err not_a_string
require_string (integer _) = err not_a_string
require_string (number _) = err not_a_string
require_string (array _) = err not_a_string
require_string (object _) = err not_a_string

-- A boolean is no integer here.
unfoldable pub require_int : Json → Decoded ℤ
require_int (integer n) = ok n
require_int null = err not_an_integer
require_int (boolean _) = err not_an_integer
require_int (number _) = err not_an_integer
require_int (text _) = err not_an_integer
require_int (array _) = err not_an_integer
require_int (object _) = err not_an_integer

-- `float(value)`; `of_int` is Python's conversion, which raises `OverflowError` for an integer that is
-- too large for a float. That is left out.
unfoldable pub require_number : (ℤ → Float) → Json → Decoded Float
require_number of_int (integer n) = ok (of_int n)
require_number of_int (number f) = ok f
require_number of_int null = err not_a_number
require_number of_int (boolean _) = err not_a_number
require_number of_int (text _) = err not_a_number
require_number of_int (array _) = err not_a_number
require_number of_int (object _) = err not_a_number

unfoldable pub require_bool : Json → Decoded Bool
require_bool (boolean b) = ok b
require_bool null = err not_a_boolean
require_bool (integer _) = err not_a_boolean
require_bool (number _) = err not_a_boolean
require_bool (text _) = err not_a_boolean
require_bool (array _) = err not_a_boolean
require_bool (object _) = err not_a_boolean

abbrev pub items_of : Jsons → List Json
items_of nil = []
items_of (cons j js) = j ∷ items_of js

abbrev pub get : String → Members → Option Json
get key end = none
get key (member k v members) = if k == key then some v else get key members

abbrev pub keys : Members → List String
keys end = []
keys (member k v members) = k ∷ keys members

unfoldable pub reject_unknown_keys : Members → List String → Decoded (Unit {0})
reject_unknown_keys members allowed =
    if all (λ key. mem key allowed) (keys members) then ok tt else err unknown_fields

unfoldable mutual
  -- The numbers of a document that JSON can spell.
  pub validate_json : Json → Decoded (Unit {0})
  validate_json null = ok tt
  validate_json (boolean _) = ok tt
  validate_json (integer _) = ok tt
  validate_json (text _) = ok tt
  validate_json (number f) = if is_finite f then ok tt else err not_finite
  validate_json (array items) = validate_items items
  validate_json (object members) = validate_members members

  pub validate_items : Jsons → Decoded (Unit {0})
  validate_items nil = ok tt
  validate_items (cons item items) = validate_json item >> validate_items items

  pub validate_members : Members → Decoded (Unit {0})
  validate_members end = ok tt
  validate_members (member key item members) = validate_json item >> validate_members members
