-- ===== src/Chat/Request.antt =====
-- app/openai_compat.py: `openai_to_anthropic`, a request of the chat protocol as a body of the messages
-- protocol. `loads` is `json.loads` of a text, `to_float` the text of `float(x)`, each `none` where Python
-- raises the error that the code catches. The outer `none` is an exception that leaves the function.
pub mod Checked
use zcode2api.Prelude.{
  ℕ, String, Bool, true, false, Option, none, some, List, [], ◌∷◌, ◌++◌, if◌then◌else◌, str_eq,
  nonempty, strip, joined, ◌>>=◌, or_else, ℤ, pos, is_empty, text_or, not, ◌&&◌, ◌||◌, map,
}
use mathlib.Core.Option
use zcode2api.Prelude.Json
use zcode2api.Prelude.Json.{
  Json, Items, Fields, null, bool, int, float, str, arr, obj, cons, nil, end, field, get, has, put,
  remove, object, array, items, is_truthy, is_obj, get_in, or_json, show, as_str, as_obj,
}
use zcode2api.Prelude.Number.{as_int}
use zcode2api.Chat.{
  part, says, text_of, collect, iterated, text_from_content, text_block, image_block,
}
use zcode2api.Chat.Effort.{Applied, applied, refused, apply_reasoning_params}
use zcode2api.Chat.Turns.{Turn, instruction, turn, turns}

-- A body, or the text of a refusal.
pub data Converted : Type 0 where
  messages_body : Fields → Converted
  invalid : String → Converted

module _ (to_float : Json → Option String) where
  -- `body["temperature"]`, then `body["top_p"]`, until one cannot be read.
  abbrev pub number_put : String → Json → Fields → Option Fields
  number_put key null body = some body
  number_put key j body = Option.map (λ t. put key (float t) body) (to_float j)

  abbrev pub or_kept : Fields → Option Fields → Fields
  or_kept body none = body
  or_kept body (some b) = b

  abbrev pub with_top_p : Fields → Fields → Option Fields → Fields
  with_top_p payload body none = body
  with_top_p payload body (some b) = or_kept b (number_put "top_p" (get "top_p" payload) b)

  unfoldable pub sampling : Fields → Fields → Fields
  sampling payload body =
      with_top_p payload body (number_put "temperature" (get "temperature" payload) body)

abbrev pub system_part : Turn → Option String
system_part (instruction s) = some s
system_part _ = none

abbrev pub message_part : Turn → Option Json
message_part (turn role blocks) =
    some (object (("role", str role) ∷ ("content", array blocks) ∷ []))
message_part _ = none

unfoldable pub system_parts : List Turn → List String
system_parts l = collect system_part l

unfoldable pub out_msgs : List Turn → List Json
out_msgs l = collect message_part l

abbrev pub put_stop : Json → Fields → Fields
put_stop (str s) body = if nonempty s then put "stop_sequences" (array (str s ∷ [])) body else body
put_stop (arr xs) body =
    if is_truthy (arr xs)
    then put "stop_sequences" (array (map (λ j. str (show j)) (items xs))) body
    else body
put_stop _ body = body

abbrev pub put_stream : Json → Fields → Fields
put_stream j body = if is_truthy j then put "stream" (bool true) body else body

abbrev pub put_system : List String → Fields → Fields
put_system parts body =
    if is_empty parts then body else put "system" (str (joined "\n\n" parts)) body

abbrev pub fields_in : Json → Fields
fields_in (obj fs) = fs
fields_in _ = end

-- The session that a request names, as metadata of the body.
abbrev pub put_session : String → Fields → Fields
put_session s body =
    put "metadata" (obj (put "session_id" (str s) (fields_in (get "metadata" body)))) body

abbrev pub put_user : Json → Fields → Fields
put_user (str s) body = if nonempty (strip s) then put_session (strip s) body else body
put_user _ body = body

abbrev pub schema_of : Json → Json
schema_of (obj fs) = obj fs
schema_of _ = object (("type", str "object") ∷ [])

abbrev pub tool_of : Json → Option Json
tool_of t = elim (as_obj (get_in "function" t)) [
  | none ↦ none
  | some fn ↦
      if is_truthy (get "name" fn)
      then some (
          object (
            ("name", str (show (get "name" fn)))
            ∷ ("description", str (text_of (get "description" fn)))
            ∷ ("input_schema", schema_of (get "parameters" fn))
            ∷ []))
      else none
]

abbrev pub put_tools : List Json → Fields → Fields
put_tools [] body = body
put_tools (t ∷ l) body = put "tools" (array (t ∷ l)) body

abbrev pub mapped_tools : Json → List Json
mapped_tools (arr xs) = collect tool_of (items xs)
mapped_tools _ = []

abbrev pub named_choice : String → Fields → Fields
named_choice name body =
    if nonempty name
    then put "tool_choice" (object (("type", str "tool") ∷ ("name", str name) ∷ [])) body
    else body

-- The choice of a tool; `none` where its `function` is a value that has no `get`.
unfoldable pub put_choice : Json → Fields → Option Fields
put_choice (str s) body =
    if str_eq s "none"
    then some (remove "tools" body)
    else if str_eq s "required"
    then some (put "tool_choice" (object (("type", str "any") ∷ [])) body)
    else some body
put_choice (obj choice) body =
    if says "function" (get "type" choice)
    then (part "function" choice >>= λ fn. some (named_choice (text_of (get "name" fn)) body))
    else some body
put_choice _ body = some body

-- `isinstance(model, str) and model.strip()`
abbrev pub is_named : Json → Bool
is_named (str s) = nonempty (strip s)
is_named _ = false

abbrev pub or_default : Option ℤ → ℤ
or_default none = pos 4096
or_default (some n) = if is_truthy (int n) then n else pos 4096

abbrev pub first_body : Fields → List Json → ℤ → Fields
first_body payload msgs max_tokens = Json.fields (
    ("model", get "model" payload) ∷ ("messages", array msgs) ∷ ("max_tokens", int max_tokens) ∷ [])

abbrev pub finished : Fields → Applied → Option Converted
finished payload (refused message) = some (invalid message)
finished payload (applied b) = Option.map messages_body (
    put_choice (get "tool_choice" payload)
      (put_tools (mapped_tools (get "tools" payload)) (put_user (get "user" payload) b)))

module _ (loads : String → Option Json) (to_float : Json → Option String) where
  unfoldable pub converted : Fields → Items → Option Converted
  converted payload xs = turns loads (items xs) >>= λ ts.
      as_int (or_json (get "max_tokens" payload) (get "max_completion_tokens" payload)) >>= λ n.
      let start = first_body payload (out_msgs ts) (or_default n) in
      let sampled = sampling to_float payload (put_system (system_parts ts) start) in
      finished payload (
        apply_reasoning_params payload
          (put_stream (get "stream" payload) (put_stop (get "stop" payload) sampled)))

  abbrev pub with_messages : Fields → Json → Option Converted
  with_messages payload (arr (cons x xs)) = converted payload (cons x xs)
  with_messages payload _ = some (invalid "必须提供 messages 数组")

  unfoldable pub openai_to_anthropic : Fields → Option Converted
  openai_to_anthropic payload =
      if is_named (get "model" payload)
      then with_messages payload (get "messages" payload)
      else some (invalid "必须提供 model 参数")
