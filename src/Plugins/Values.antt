-- ===== src/Plugins/Values.antt =====
-- manifest.py: the checks of single JSON values.
use angelus.Prelude.{
  ℕ, Bool, true, false, not, ◌&&◌, ◌||◌, List, [], ◌∷◌, ◌++◌, String, is_empty, if◌then◌else◌, leb,
  length, all, mem, codes, ok, err, ◌>>=◌, ◌>>◌, raise_if, get_or,
}
use angelus.Settings.Json.{
  Json, null, boolean, integer, number, text, array, object, Members, get, keys, items_of,
}
use angelus.Plugins.Types.{manifest_error, type_error, Decoded, ValueType}

abbrev pub size : String → ℕ
size s = length (codes s)

unfoldable pub text_of : Json → Decoded String
text_of (text t) = ok t
text_of null = err manifest_error
text_of (boolean _) = err manifest_error
text_of (integer _) = err manifest_error
text_of (number _) = err manifest_error
text_of (array _) = err manifest_error
text_of (object _) = err manifest_error

unfoldable pub mapping_of : Json → Decoded Members
mapping_of (object members) = ok members
mapping_of null = err manifest_error
mapping_of (boolean _) = err manifest_error
mapping_of (integer _) = err manifest_error
mapping_of (number _) = err manifest_error
mapping_of (text _) = err manifest_error
mapping_of (array _) = err manifest_error

unfoldable pub sequence_of : Json → Decoded (List Json)
sequence_of (array items) = ok (items_of items)
sequence_of null = err manifest_error
sequence_of (boolean _) = err manifest_error
sequence_of (integer _) = err manifest_error
sequence_of (number _) = err manifest_error
sequence_of (text _) = err manifest_error
sequence_of (object _) = err manifest_error

unfoldable pub bool_of : Json → Decoded Bool
bool_of (boolean b) = ok b
bool_of null = err manifest_error
bool_of (integer _) = err manifest_error
bool_of (number _) = err manifest_error
bool_of (text _) = err manifest_error
bool_of (array _) = err manifest_error
bool_of (object _) = err manifest_error

-- `value not in {...}`: an array or an object has no hash.
unfoldable pub hashed_text : Json → Decoded String
hashed_text (text t) = ok t
hashed_text null = err manifest_error
hashed_text (boolean _) = err manifest_error
hashed_text (integer _) = err manifest_error
hashed_text (number _) = err manifest_error
hashed_text (array _) = err type_error
hashed_text (object _) = err type_error

unfoldable pub reject_unknown : List String → Members → Decoded (Unit {0})
reject_unknown allowed raw = raise_if (not (all (λ key. mem key allowed) (keys raw))) manifest_error

-- `_matches`
unfoldable pub matches : ValueType → Json → Bool
matches ValueType.string (text _) = true
matches ValueType.boolean (boolean _) = true
matches ValueType.integer (integer _) = true
matches ValueType.number (integer _) = true
matches ValueType.number (number _) = true
matches _ _ = false

-- `_plain`
unfoldable pub plain : ℕ → Json → Decoded String
plain maximum null = ok ""
plain maximum (text t) = if leb (size t) maximum then ok t else err manifest_error
plain maximum (boolean _) = err manifest_error
plain maximum (integer _) = err manifest_error
plain maximum (number _) = err manifest_error
plain maximum (array _) = err manifest_error
plain maximum (object _) = err manifest_error

-- `_text`
unfoldable pub text_field : String → Bool → ℕ → Members → Decoded String
unfolding text_of
text_field key required maximum raw = do
  t ← text_of (get_or (text "") (get key raw))
  raise_if (not (leb (size t) maximum) || required && is_empty t) manifest_error
  ok t

-- A loop over the items of an array, each step of which knows what was decoded before.
unfoldable pub collect :
    {A : Type 0} → (List A → Json → Decoded A) → List A → List Json → Decoded (List A)
collect step found [] = ok found
collect step found (j ∷ js) = do a ← step found j; collect step (found ++ a ∷ []) js
