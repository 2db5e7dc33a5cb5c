-- ===== src/Hub/Packages.antt =====
-- What the context codec accepts: packages within its bounds, and all of them.
use angelus.Prelude.{
  ℕ, suc, ◌≤◌, ◌≡◌, refl, ap, Bool, true, false, not, ◌&&◌, List, [], ◌∷◌, String, get_or, arith,
  if◌then◌else◌, leb, length, all, mem, ok, err, ◌>>=◌, ◌>>◌, raise_if, Ensures, Ensures-ok,
  Ensures-after, Ensures-bind, Ensures-raise_if,
}
use angelus.Settings.Json.{
  pos, negsuc, Json, null, boolean, integer, number, text, array, object, nil, get, keys,
}
use angelus.Hub.Types.{ContextToolCall, ContextMessage, ContextPackage}
use angelus.Hub.Codec.{
  CodecError, Parsed, value_error, size, object_of, text_of, list_of, sequence_of, role_of,
  created_of, version_of, reject_unknown, each, parse_tool, parse_message, parse_context_package,
  required,
}

abbrev pub All : {A : Type 0} → (A → Type 0) → List A → Type 0
All P [] = Unit
All P (x ∷ xs) = P x × All P xs

pub record IsBoundedCall (c : ContextToolCall) : Type 0 where
  pub name_bound : size c.name ≤ 200000
  pub arguments_bound : size c.arguments_json ≤ 200000
  pub result_bound : size c.result ≤ 200000

pub record IsBoundedMessage (m : ContextMessage) : Type 0 where
  pub content_bound : size m.content ≤ 200000
  pub reasoning_bound : size m.reasoning ≤ 200000
  pub call_count : length m.tool_calls ≤ 64
  pub calls_bound : All IsBoundedCall m.tool_calls

-- The limits of a context package.
pub record IsBounded (p : ContextPackage) : Type 0 where
  pub version : p.format_version ≡ 1
  pub source_bound : size p.source ≤ 2000
  pub session_bound : size p.source_session_id ≤ 2000
  pub agent_bound : size p.source_agent ≤ 2000
  pub message_count : length p.messages ≤ 200
  pub messages_bound : All IsBoundedMessage p.messages
  pub summary_bound : size p.summary ≤ 32000
  pub redactions_bound : All (λ r. size r ≤ 500) p.redactions

text_of-bound : (limit : ℕ) (j : Json) → Ensures (λ t. size t ≤ limit) (text_of limit j)
unfolding text_of
text_of-bound limit (text t) = at_most (leb (size t) limit) refl
  where
    at_most :
        (b : Bool)
        → leb (size t) limit ≡ b
        → Ensures {E = CodecError} (λ s. size s ≤ limit) (if b then ok t else err value_error)
    at_most true e = ground arith
    at_most false e = tt
text_of-bound limit null = tt
text_of-bound limit (boolean _) = tt
text_of-bound limit (integer _) = tt
text_of-bound limit (number _) = tt
text_of-bound limit (array _) = tt
text_of-bound limit (object _) = tt

each-All :
    {A : Type 0} (P : A → Type 0) (f : Json → Parsed A)
    → ((j : Json) → Ensures P (f j))
    → (js : List Json) → Ensures (λ xs. All P xs × (length xs ≡ length js)) (each f js)
unfolding each
each-All P f h [] = (tt, refl)
each-All P f h (j ∷ js) =
    let Q : List _ → Type 0 = λ xs. All P xs × (length xs ≡ length (j ∷ js)) in
    Ensures-bind P Q (f j) _ (h j) (λ a p.
      Ensures-bind (λ xs. All P xs × (length xs ≡ length js)) Q (each f js) _ (each-All P f h js)
        (λ xs q. ((p, q.0), ap (λ (n : ℕ). suc n) q.1)))

abbrev Within : ℕ → String → Type 0
Within limit t = size t ≤ limit

-- Behind a text that was read, its bound is known.
after_text :
    {B : Type 0} (P : B → Type 0) (limit : ℕ) (j : Json) (f : String → Parsed B)
    → ((t : String) → size t ≤ limit → Ensures P (f t))
    → Ensures P (text_of limit j >>= f)
after_text P limit j f h =
    Ensures-bind (Within limit) P (text_of limit j) f (text_of-bound limit j) h

-- Behind a length check, the length is known.
after_count :
    {B : Type 0} (P : B → Type 0) (n limit : ℕ) (k : Parsed B)
    → (n ≤ limit → Ensures P k)
    → Ensures P (raise_if (not (leb n limit)) value_error >> k)
after_count P n limit k h =
    Ensures-raise_if P (not (leb n limit)) value_error k (λ e. h (ground arith))

parse_tool-IsBoundedCall : (j : Json) → Ensures IsBoundedCall (parse_tool j)
unfolding parse_tool
parse_tool-IsBoundedCall j =
    let P : ContextToolCall → Type 0 = IsBoundedCall in
    Ensures-after P (object_of j) _ (λ payload.
      Ensures-after P (reject_unknown ("name" ∷ "arguments_json" ∷ "result" ∷ []) payload) _ (λ _.
        after_text P 200000 (get_or null (get "name" payload)) _ (λ name a.
          after_text P 200000 (get_or (text "") (get "arguments_json" payload)) _ (λ arguments b.
            after_text P 200000 (get_or (text "") (get "result" payload))
              (λ result. ok (record { name = name; arguments_json = arguments; result = result }))
              (λ result c. record { name_bound = a; arguments_bound = b; result_bound = c })))))

abbrev message_keys : List String
message_keys = "sequence" ∷ "role" ∷ "content" ∷ "reasoning" ∷ "tool_calls" ∷ "created_at" ∷ []

Calls : List Json → List ContextToolCall → Type 0
Calls tools calls = All IsBoundedCall calls × (length calls ≡ length tools)

parse_message-IsBoundedMessage : (j : Json) → Ensures IsBoundedMessage (parse_message j)
unfolding parse_message Calls
parse_message-IsBoundedMessage j =
    let P : ContextMessage → Type 0 = IsBoundedMessage in
    Ensures-after P (object_of j) _ (λ payload.
      Ensures-after P (reject_unknown message_keys payload) _ (λ _.
        Ensures-after P (sequence_of (get_or null (get "sequence" payload))) _ (λ sequence.
          Ensures-after P (role_of (get_or null (get "role" payload))) _ (λ role.
            after_text P 200000 (get_or null (get "content" payload)) _ (λ content a.
              after_text P 200000 (get_or (text "") (get "reasoning" payload)) _ (λ reasoning b.
                Ensures-after P (created_of (get_or null (get "created_at" payload))) _
                  (λ created_at.
                    Ensures-after P (list_of (get_or (array nil) (get "tool_calls" payload))) _
                      (λ tools. after_count P (length tools) 64 _ (λ c.
                        Ensures-bind (Calls tools) P (each parse_tool tools)
                          (λ calls. ok (record {
                            sequence = sequence;
                            role = role;
                            content = content;
                            reasoning = reasoning;
                            tool_calls = calls;
                            created_at = created_at;
                          }))
                          (each-All IsBoundedCall parse_tool parse_tool-IsBoundedCall tools)
                          (λ calls d. record {
                            content_bound = a;
                            reasoning_bound = b;
                            call_count = omega (arith, d.1);
                            calls_bound = d.0;
                          }))))))))))

version_of-one : (j : Json) → Ensures (λ n. n ≡ 1) (version_of j)
unfolding version_of
version_of-one (integer (pos n)) = one (leb n 1 && leb 1 n) refl
  where
    one :
        (b : Bool)
        → (leb n 1 && leb 1 n) ≡ b
        → Ensures {E = CodecError} (λ m. m ≡ 1) (if b then ok n else err value_error)
    one true e = ground arith
    one false e = tt
version_of-one (integer (negsuc _)) = tt
version_of-one null = tt
version_of-one (boolean _) = tt
version_of-one (number _) = tt
version_of-one (text _) = tt
version_of-one (array _) = tt
version_of-one (object _) = tt

abbrev package_keys : List String
package_keys =
    "format_version" ∷ "source" ∷ "source_session_id" ∷ "source_agent" ∷ "messages" ∷ "summary"
    ∷ "redactions" ∷ []

Redactions : List Json → List String → Type 0
Redactions raw redactions = All (Within 500) redactions × (length redactions ≡ length raw)

Messages : List Json → List ContextMessage → Type 0
Messages raw messages = All IsBoundedMessage messages × (length messages ≡ length raw)

parse_context_package-IsBounded' : (j : Json) → Ensures IsBounded (parse_context_package j)
unfolding parse_context_package Redactions Messages
parse_context_package-IsBounded' j =
    let P : ContextPackage → Type 0 = IsBounded in
    Ensures-after P (object_of j) _ (λ payload.
      Ensures-after P (reject_unknown package_keys payload) _ (λ _.
        Ensures-after P (raise_if (not (all (λ key. mem key (keys payload)) required)) value_error)
          _
          (λ _.
            Ensures-bind (λ n. n ≡ 1) P (version_of (get_or null (get "format_version" payload))) _
              (version_of-one (get_or null (get "format_version" payload)))
              (λ version a. after_text P 2000 (get_or null (get "source" payload)) _ (λ source b.
                after_text P 2000 (get_or null (get "source_session_id" payload)) _ (λ session c.
                  after_text P 2000 (get_or null (get "source_agent" payload)) _ (λ agent d.
                    Ensures-after P (list_of (get_or null (get "messages" payload))) _ (λ raw.
                      after_count P (length raw) 200 _ (λ e.
                        after_text P 32000 (get_or (text "") (get "summary" payload)) _
                          (λ summary f.
                            Ensures-after P
                              (list_of (get_or (array nil) (get "redactions" payload))) _
                              (λ raw_redactions.
                                Ensures-bind (Redactions raw_redactions) P
                                  (each (text_of 500) raw_redactions) _
                                  (each-All (Within 500) (text_of 500) (text_of-bound 500)
                                    raw_redactions)
                                  (λ redactions g.
                                    Ensures-bind (Messages raw) P (each parse_message raw)
                                      (λ messages. ok (record {
                                        format_version = version;
                                        source = source;
                                        source_session_id = session;
                                        source_agent = agent;
                                        messages = messages;
                                        summary = summary;
                                        redactions = redactions;
                                      }))
                                      (each-All IsBoundedMessage parse_message
                                        parse_message-IsBoundedMessage raw)
                                      (λ messages h. record {
                                        version = a;
                                        source_bound = b;
                                        session_bound = c;
                                        agent_bound = d;
                                        message_count = omega (arith, h.1);
                                        messages_bound = h.0;
                                        summary_bound = f;
                                        redactions_bound = g.0;
                                      })))))))))))))

-- A context package that is accepted has version 1, names of at most 2,000 characters, at most
-- 200 messages, each with content and reasoning of at most 200,000 characters and at most 64
-- tool calls with texts of at most 200,000, a summary of at most 32,000 characters and
-- redactions of at most 500 each.
pub parse_context_package-IsBounded :
    (j : Json) (p : ContextPackage) → parse_context_package j ≡ ok p → IsBounded p
parse_context_package-IsBounded j p e =
    Ensures-ok IsBounded (parse_context_package j) (parse_context_package-IsBounded' j) e
