-- ===== src/Hub/Codec.antt =====
-- context_codec.py: the strict decoding of context packages that a client sends.
use angelus.Prelude.{
  ℕ, not, ◌&&◌, Option, none, some, List, [], ◌∷◌, String, ◌==◌, get_or, if◌then◌else◌, leb, length,
  all, mem, codes, Result, ok, err, ◌>>=◌, ◌>>◌, raise_if,
}
use angelus.Settings.Json.{
  ℤ, pos, negsuc, Json, null, boolean, integer, number, text, array, object, nil, Members, get,
  keys, items_of,
}
use angelus.Hub.Types.{ContextToolCall, ContextMessage, ContextPackage, ContextRole}

-- What the codec raises; a `TypeError` leaves the test of an array or an object for membership in a
-- set.
pub data CodecError : Type 0 where
  value_error type_error : CodecError

abbrev pub Parsed : Type 0 → Type 0
Parsed A = Result CodecError A

abbrev pub size : String → ℕ
size s = length (codes s)

unfoldable pub object_of : Json → Parsed Members
object_of (object members) = ok members
object_of null = err value_error
object_of (boolean _) = err value_error
object_of (integer _) = err value_error
object_of (number _) = err value_error
object_of (text _) = err value_error
object_of (array _) = err value_error

-- A text of at most `limit` characters.
unfoldable pub text_of : ℕ → Json → Parsed String
text_of limit (text t) = if leb (size t) limit then ok t else err value_error
text_of limit null = err value_error
text_of limit (boolean _) = err value_error
text_of limit (integer _) = err value_error
text_of limit (number _) = err value_error
text_of limit (array _) = err value_error
text_of limit (object _) = err value_error

-- A list, of any length.
unfoldable pub list_of : Json → Parsed (List Json)
list_of (array items) = ok (items_of items)
list_of null = err value_error
list_of (boolean _) = err value_error
list_of (integer _) = err value_error
list_of (number _) = err value_error
list_of (text _) = err value_error
list_of (object _) = err value_error

unfoldable pub sequence_of : Json → Parsed ℕ
sequence_of (integer (pos n)) = ok n
sequence_of (integer (negsuc _)) = err value_error
sequence_of null = err value_error
sequence_of (boolean _) = err value_error
sequence_of (number _) = err value_error
sequence_of (text _) = err value_error
sequence_of (array _) = err value_error
sequence_of (object _) = err value_error

unfoldable pub role_named : String → Parsed ContextRole
role_named t =
    if t == "system"
    then ok ContextRole.system
    else if t == "user"
    then ok ContextRole.user
    else if t == "assistant"
    then ok ContextRole.assistant
    else if t == "tool"
    then ok ContextRole.tool
    else err value_error

unfoldable pub role_of : Json → Parsed ContextRole
unfolding role_named
role_of (text t) = role_named t
role_of null = err value_error
role_of (boolean _) = err value_error
role_of (integer _) = err value_error
role_of (number _) = err value_error
role_of (array _) = err type_error
role_of (object _) = err type_error

unfoldable pub created_of : Json → Parsed (Option ℤ)
created_of null = ok none
created_of (integer n) = ok (some n)
created_of (boolean _) = err value_error
created_of (number _) = err value_error
created_of (text _) = err value_error
created_of (array _) = err value_error
created_of (object _) = err value_error

unfoldable pub version_of : Json → Parsed ℕ
version_of (integer (pos n)) = if leb n 1 && leb 1 n then ok n else err value_error
version_of (integer (negsuc _)) = err value_error
version_of null = err value_error
version_of (boolean _) = err value_error
version_of (number _) = err value_error
version_of (text _) = err value_error
version_of (array _) = err value_error
version_of (object _) = err value_error

unfoldable pub reject_unknown : List String → Members → Parsed (Unit {0})
reject_unknown allowed payload =
    raise_if (not (all (λ key. mem key allowed) (keys payload))) value_error

unfoldable pub each : {A : Type 0} → (Json → Parsed A) → List Json → Parsed (List A)
each f [] = ok []
each f (j ∷ js) = do a ← f j; rest ← each f js; ok (a ∷ rest)

-- `_tool`: a missing name is no text, and so refused.
unfoldable pub parse_tool : Json → Parsed ContextToolCall
unfolding object_of reject_unknown text_of
parse_tool j = do
  payload ← object_of j
  reject_unknown ("name" ∷ "arguments_json" ∷ "result" ∷ []) payload
  name ← text_of 200000 (get_or null (get "name" payload))
  arguments ← text_of 200000 (get_or (text "") (get "arguments_json" payload))
  result ← text_of 200000 (get_or (text "") (get "result" payload))
  ok (record { name = name; arguments_json = arguments; result = result })

-- `_message`
unfoldable pub parse_message : Json → Parsed ContextMessage
unfolding object_of reject_unknown text_of list_of sequence_of role_of created_of each
parse_message j = do
  payload ← object_of j
  reject_unknown ("sequence" ∷ "role" ∷ "content" ∷ "reasoning" ∷ "tool_calls" ∷ "created_at" ∷ [])
      payload
  sequence ← sequence_of (get_or null (get "sequence" payload))
  role ← role_of (get_or null (get "role" payload))
  content ← text_of 200000 (get_or null (get "content" payload))
  reasoning ← text_of 200000 (get_or (text "") (get "reasoning" payload))
  created_at ← created_of (get_or null (get "created_at" payload))
  tools ← list_of (get_or (array nil) (get "tool_calls" payload))
  raise_if (not (leb (length tools) 64)) value_error
  calls ← each parse_tool tools
  ok (record {
    sequence = sequence;
    role = role;
    content = content;
    reasoning = reasoning;
    tool_calls = calls;
    created_at = created_at;
  })

abbrev pub required : List String
required = "format_version" ∷ "source" ∷ "source_session_id" ∷ "source_agent" ∷ "messages" ∷ []

unfoldable pub parse_context_package : Json → Parsed ContextPackage
unfolding object_of reject_unknown text_of list_of version_of each
parse_context_package j = do
  payload ← object_of j
  reject_unknown
      ("format_version" ∷ "source" ∷ "source_session_id" ∷ "source_agent" ∷ "messages" ∷ "summary"
        ∷ "redactions" ∷ [])
      payload
  raise_if (not (all (λ key. mem key (keys payload)) required)) value_error
  version ← version_of (get_or null (get "format_version" payload))
  source ← text_of 2000 (get_or null (get "source" payload))
  session ← text_of 2000 (get_or null (get "source_session_id" payload))
  agent ← text_of 2000 (get_or null (get "source_agent" payload))
  raw ← list_of (get_or null (get "messages" payload))
  raise_if (not (leb (length raw) 200)) value_error
  summary ← text_of 32000 (get_or (text "") (get "summary" payload))
  raw_redactions ← list_of (get_or (array nil) (get "redactions" payload))
  redactions ← each (text_of 500) raw_redactions
  messages ← each parse_message raw
  ok (record {
    format_version = version;
    source = source;
    source_session_id = session;
    source_agent = agent;
    messages = messages;
    summary = summary;
    redactions = redactions;
  })
