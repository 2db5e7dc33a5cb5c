-- ===== src/Plugins/Fields.antt =====
-- manifest.py: the fields of settings and of panels, and the conditions under which they show.
use angelus.Prelude.{
  ℕ, zero, suc, Bool, true, false, not, ◌&&◌, ◌||◌, Option, none, some, List, [], ◌∷◌, String, ◌==◌,
  if◌then◌else◌, leb, length, all, mem, ok, err, ◌>>=◌, ◌>>◌, raise_if, get_or,
}
use angelus.Settings.Json.{
  Json, null, boolean, integer, number, text, array, object, Jsons, nil, cons, Members, end, member,
  get, keys,
}
use angelus.Plugins.Types.{manifest_error, Decoded, ValueType, ValueFormat}
use angelus.Plugins.Patterns.{valid_key}
use angelus.Plugins.Values.{mapping_of, sequence_of, bool_of, hashed_text, reject_unknown, matches}

unfoldable pub type_named : String → Decoded ValueType
type_named t =
    if t == "string"
    then ok ValueType.string
    else if t == "integer"
    then ok ValueType.integer
    else if t == "number"
    then ok ValueType.number
    else if t == "boolean"
    then ok ValueType.boolean
    else err manifest_error

unfoldable pub format_named : Bool → String → Decoded ValueFormat
format_named password_too t =
    if t == "uri"
    then ok ValueFormat.uri
    else if t == "path"
    then ok ValueFormat.path
    else if t == "textarea"
    then ok ValueFormat.textarea
    else if password_too && t == "password"
    then ok ValueFormat.password
    else err manifest_error

abbrev pub is_string : ValueType → Bool
is_string ValueType.string = true
is_string ValueType.integer = false
is_string ValueType.number = false
is_string ValueType.boolean = false

abbrev pub is_numeric : ValueType → Bool
is_numeric ValueType.integer = true
is_numeric ValueType.number = true
is_numeric ValueType.string = false
is_numeric ValueType.boolean = false

abbrev pub is_null : Json → Bool
is_null null = true
is_null (boolean _) = false
is_null (integer _) = false
is_null (number _) = false
is_null (text _) = false
is_null (array _) = false
is_null (object _) = false

-- `raw.get(name)`, with null for a missing name.
abbrev pub lookup : String → Members → Json
lookup name raw = get_or null (get name raw)

abbrev pub not_null : Json → Option Json
not_null j = if is_null j then none else some j

-- `default if "default" in raw`, which has to match the type.
unfoldable pub default_of : ValueType → Members → Decoded (Option Json)
default_of t raw = do
  raise_if (mem "default" (keys raw) && not (matches t (lookup "default" raw))) manifest_error
  ok (if mem "default" (keys raw) then some (lookup "default" raw) else none)

unfoldable pub choices_of : ValueType → Members → Decoded (List Json)
choices_of t raw = do
  choices ← sequence_of (get_or (array nil) (get "enum" raw))
  raise_if (not (all (matches t) choices)) manifest_error
  ok choices

unfoldable pub bound_of : ValueType → Json → Decoded (Option Json)
bound_of t j = do
  raise_if (not (is_null j) && not (is_numeric t && matches t j)) manifest_error
  ok (not_null j)

-- A format is looked for in a set only if the type is a string.
unfoldable pub format_of : Bool → ValueType → Json → Decoded (Option ValueFormat)
unfolding hashed_text format_named
format_of password_too t j =
    if is_null j
    then ok none
    else if is_string t
    then (hashed_text j >>= λ name. format_named password_too name >>= λ f. ok (some f))
    else err manifest_error

abbrev pub is_true : Json → Bool
is_true (boolean b) = b
is_true null = false
is_true (integer _) = false
is_true (number _) = false
is_true (text _) = false
is_true (array _) = false
is_true (object _) = false

abbrev pub is_password : Json → Bool
is_password (text t) = t == "password"
is_password null = false
is_password (boolean _) = false
is_password (integer _) = false
is_password (number _) = false
is_password (array _) = false
is_password (object _) = false

abbrev pub crosses : (Json → Json → Bool) → Option Json → Option Json → Bool
crosses greater (some a) (some b) = greater a b
crosses greater (some a) none = false
crosses greater none b = false

unfoldable pub each_json : {A : Type 0} → (Json → Decoded A) → List Json → Decoded (List A)
each_json f [] = ok []
each_json f (j ∷ js) = do a ← f j; rest ← each_json f js; ok (a ∷ rest)

abbrev pub is_scalar : Json → Bool
is_scalar j =
    matches ValueType.string j
    || matches ValueType.integer j
    || matches ValueType.number j
    || matches ValueType.boolean j

abbrev pub pack : List Members → Jsons
pack [] = nil
pack (ms ∷ rest) = cons (object ms) (pack rest)

-- `_visibility(item) or {}`
abbrev pub map_or_empty : List (Option Members) → List Members
map_or_empty [] = []
map_or_empty (none ∷ rest) = end ∷ map_or_empty rest
map_or_empty (some ms ∷ rest) = ms ∷ map_or_empty rest

abbrev pub put_if : String → Option Json → Members → Members
put_if key none rest = rest
put_if key (some j) rest = member key j rest

-- A value that is checked if its name stands in the object.
abbrev pub checked : String → (Json → Decoded Json) → Members → Decoded (Option Json)
checked name f raw = elim (get name raw) [ none ↦ ok none | some j ↦ (f j >>= λ k. ok (some k)) ]

unfoldable pub condition_key : Json → Decoded (Option Json)
condition_key null = ok none
condition_key (text t) = if valid_key t then ok (some (text t)) else err manifest_error
condition_key (boolean _) = err manifest_error
condition_key (integer _) = err manifest_error
condition_key (number _) = err manifest_error
condition_key (array _) = err manifest_error
condition_key (object _) = err manifest_error

abbrev pub is_none_left : Members → Bool
is_none_left end = true
is_none_left (member _ _ _) = false

-- `_visibility`, where the first argument is how many levels more there may be: 5 at the top.
unfoldable pub visibility : ℕ → Json → Decoded (Option Members)
unfolding condition_key each_json
visibility zero j = if is_null j then ok none else err manifest_error
visibility (suc levels) null = ok none
visibility (suc levels) j = do
  raw ← mapping_of j
  reject_unknown ("key" ∷ "equals" ∷ "one_of" ∷ "not_empty" ∷ "all" ∷ "any" ∷ []) raw
  key ← condition_key (lookup "key" raw)
  equals ← checked "equals" (λ k. raise_if (not (is_scalar k)) manifest_error >> ok k) raw
  one_of ←
      checked "one_of"
        (λ k. do
          choices ← sequence_of k
          raise_if (leb (length choices) 0) manifest_error
          raise_if (not (all is_scalar choices)) manifest_error
          ok k)
        raw
  not_empty ← checked "not_empty" (λ k. bool_of k >>= λ b. ok (boolean b)) raw
  let nested = λ (k : Json). do
    conditions ← sequence_of k
    raise_if (leb (length conditions) 0) manifest_error
    inner ← each_json (visibility levels) conditions
    ok (array (pack (map_or_empty inner)))
  every ← checked "all" nested raw
  some_of ← checked "any" nested raw
  let result : Members = put_if "key" key (
      put_if "equals" equals (
        put_if "one_of" one_of
          (put_if "not_empty" not_empty (put_if "all" every (put_if "any" some_of end)))))
  raise_if (is_none_left result) manifest_error
  ok (some result)
