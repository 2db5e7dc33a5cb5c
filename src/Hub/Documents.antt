-- ===== src/Hub/Documents.antt =====
-- The JSON documents of context packages.
use angelus.Prelude.{
  ℕ, suc, ◌≤◌, ◌≡◌, refl, ap, true, Option, none, some, List, [], ◌∷◌, String, arith, leb, length,
  ok,
}
use angelus.Settings.Json.{
  ℤ, pos, Json, null, integer, text, array, object, Jsons, nil, cons, end, member, items_of,
}
use angelus.Hub.Types.{ContextToolCall, ContextMessage, ContextPackage, ContextRole}
use angelus.Hub.Codec.{
  Parsed, size, object_of, text_of, list_of, sequence_of, role_named, role_of, created_of,
  version_of, reject_unknown, each, parse_tool, parse_message, parse_context_package,
}
use angelus.Hub.Packages.{All, IsBoundedCall, IsBoundedMessage, IsBounded}

abbrev pub jsons : {A : Type 0} → (A → Json) → List A → Jsons
jsons f [] = nil
jsons f (x ∷ xs) = cons (f x) (jsons f xs)

abbrev pub role_text : ContextRole → String
role_text ContextRole.system = "system"
role_text ContextRole.user = "user"
role_text ContextRole.assistant = "assistant"
role_text ContextRole.tool = "tool"

abbrev pub created_json : Option ℤ → Json
created_json none = null
created_json (some n) = integer n

abbrev pub call_document : ContextToolCall → Json
call_document c = object (
    member "name" (text c.name)
      (member "arguments_json" (text c.arguments_json) (member "result" (text c.result) end)))

abbrev pub message_document : ContextMessage → Json
message_document m = object (
    member "sequence" (integer (pos m.sequence)) (
      member "role" (text (role_text m.role)) (
        member "content" (text m.content) (
          member "reasoning" (text m.reasoning) (
            member "tool_calls" (array (jsons call_document m.tool_calls))
              (member "created_at" (created_json m.created_at) end))))))

-- A package as a JSON object with the field names of the dataclasses.
unfoldable pub document : ContextPackage → Json
document p = object (
    member "format_version" (integer (pos p.format_version)) (
      member "source" (text p.source) (
        member "source_session_id" (text p.source_session_id) (
          member "source_agent" (text p.source_agent) (
            member "messages" (array (jsons message_document p.messages)) (
              member "summary" (text p.summary)
                (member "redactions" (array (jsons text p.redactions)) end)))))))

text_of-within : (limit : ℕ) (t : String) → size t ≤ limit → text_of limit (text t) ≡ ok t
unfolding text_of
text_of-within limit t h = ground arith

each-jsons :
    {A : Type 0} (P : A → Type 0) (f : Json → Parsed A) (g : A → Json)
    → ((x : A) → P x → f (g x) ≡ ok x)
    → (xs : List A) → All P xs
    → each f (items_of (jsons g xs)) ≡ ok xs
unfolding each
each-jsons P f g h [] a = refl
each-jsons P f g h (x ∷ xs) (p, ps) = rw (h x p, each-jsons P f g h xs ps) refl

length-items_of :
    {A : Type 0} (g : A → Json) (xs : List A) → length (items_of (jsons g xs)) ≡ length xs
length-items_of g [] = refl
length-items_of g (x ∷ xs) = ap (λ (n : ℕ). suc n) (length-items_of g xs)

role_of-role_text : (r : ContextRole) → role_of (text (role_text r)) ≡ ok r
unfolding role_of role_named
role_of-role_text ContextRole.system = refl
role_of-role_text ContextRole.user = refl
role_of-role_text ContextRole.assistant = refl
role_of-role_text ContextRole.tool = refl

created_of-created_json : (c : Option ℤ) → created_of (created_json c) ≡ ok c
unfolding created_of
created_of-created_json none = refl
created_of-created_json (some n) = refl

parse_tool-document : (c : ContextToolCall) → IsBoundedCall c → parse_tool (call_document c) ≡ ok c
unfolding parse_tool object_of reject_unknown
parse_tool-document c b =
    rw
      (
        text_of-within 200000 c.name b.name_bound,
        text_of-within 200000 c.arguments_json b.arguments_bound,
        text_of-within 200000 c.result b.result_bound,
      )
      refl

parse_message-document :
    (m : ContextMessage) → IsBoundedMessage m → parse_message (message_document m) ≡ ok m
unfolding parse_message object_of reject_unknown list_of sequence_of
parse_message-document m b =
    let n : leb (length (items_of (jsons call_document m.tool_calls))) 64 ≡ true =
      ground (arith, length-items_of call_document m.tool_calls, b.call_count) in
    rw
      (
        role_of-role_text m.role,
        text_of-within 200000 m.content b.content_bound,
        text_of-within 200000 m.reasoning b.reasoning_bound,
        created_of-created_json m.created_at,
        n,
        each-jsons IsBoundedCall parse_tool call_document parse_tool-document m.tool_calls
            b.calls_bound,
      )
      refl

-- Every context package within the limits is accepted from its JSON document, and comes back as
-- it was.
pub parse_context_package-document :
    (p : ContextPackage) → IsBounded p → parse_context_package (document p) ≡ ok p
unfolding parse_context_package document object_of reject_unknown list_of version_of
parse_context_package-document p b =
    let n : leb (length (items_of (jsons message_document p.messages))) 200 ≡ true =
      ground (arith, length-items_of message_document p.messages, b.message_count) in
    let v = b.version in
    rw
      (
        v,
        text_of-within 2000 p.source b.source_bound,
        text_of-within 2000 p.source_session_id b.session_bound,
        text_of-within 2000 p.source_agent b.agent_bound,
        n,
        text_of-within 32000 p.summary b.summary_bound,
        each-jsons (λ r. size r ≤ 500) (text_of 500) text (text_of-within 500) p.redactions
            b.redactions_bound,
        each-jsons IsBoundedMessage parse_message message_document parse_message-document p.messages
            b.messages_bound,
      )
      (ground arith)
