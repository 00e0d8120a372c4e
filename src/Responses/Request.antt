-- ===== src/Responses/Request.antt =====
-- app/responses_compat.py: `responses_to_anthropic`, a request of the responses protocol as a body of the
-- messages protocol. `loads` and `to_float` are as in Chat.Request, `fresh` draws the identifier of the
-- item at a place. The outer `none` is an exception that leaves the function.
pub mod Kept
pub mod Sound
use mathlib.Core.Option
use zcode2api.Prelude.{
  ℕ, suc, String, Bool, true, false, Option, none, some, List, [], ◌∷◌, ◌++◌, if◌then◌else◌, str_eq,
  nonempty, strip, lower, ◌>>=◌, ℤ, pos, is_empty, text_or, map, keep_if,
}
use zcode2api.Prelude.Json
use zcode2api.Prelude.Json.{
  Json, Items, Fields, null, bool, int, str, arr, obj, cons, nil, end, get, put, remove, object,
  array, items, is_truthy, get_in, or_json, as_str, as_obj,
}
use zcode2api.Prelude.Number.{as_int}
use zcode2api.Chat.{part, says, text_of, collect}
use zcode2api.Chat.Effort.{Applied, applied, refused, apply_reasoning_params}
use zcode2api.Chat.Request.{
  Converted, messages_body, invalid, sampling, put_stream, put_system, put_session, put_tools,
  named_choice, or_default, first_body, is_named,
}
use zcode2api.Responses.Messages.{Message, append_blocks, coalesce}
use zcode2api.Responses.Items.{Piece, instruction, blocks, piece_of, word, word_or}

abbrev pub no_input : String
no_input = "必须提供非空 input 参数"

abbrev pub blank_id : String
blank_id = "网关为无状态模式，不支持仅传 previous_response_id，请提供完整 input"

-- The items of the input, or why there are none.
abbrev pub input_items : Json → Option (List Json)
input_items (str s) =
    some (object (("type", str "message") ∷ ("role", str "user") ∷ ("content", str s) ∷ []) ∷ [])
input_items (arr xs) = some (items xs)
input_items _ = none

abbrev pub is_blank : Json → Bool
is_blank null = true
is_blank (str s) = str_eq s ""
is_blank (arr nil) = true
is_blank _ = false

module _ (loads : String → Option Json) (fresh : ℕ → String) where
  unfoldable pub pieces_from : ℕ → List Json → List Piece
  pieces_from n [] = []
  pieces_from n (x ∷ l) = piece_of loads (fresh n) x ∷ pieces_from (suc n) l

abbrev instruction_of : Piece → Option String
instruction_of (instruction s) = some s
instruction_of _ = none

unfoldable pub instructions : Json → List Piece → List String
instructions (str s) l =
    (if nonempty (strip s) then strip s ∷ [] else []) ++ collect instruction_of l
instructions _ l = collect instruction_of l

-- The messages before they are cleaned.
unfoldable pub raw_msgs : List Message → List Piece → List Message
raw_msgs msgs [] = msgs
raw_msgs msgs (blocks role bs ∷ l) = raw_msgs (append_blocks role bs msgs) l
raw_msgs msgs (_ ∷ l) = raw_msgs msgs l

abbrev pub message_json : Message → Json
message_json m = object (("role", str m.role) ∷ ("content", array m.content) ∷ [])

-- The session: the first of four fields that names one.
abbrev session_text : Json → Option String
session_text (str s) = if nonempty (strip s) then some (strip s) else none
session_text _ = none

abbrev session_value : Json → Option String
session_value (obj fs) = session_text (get "id" fs)
session_value j = session_text j

unfoldable pub session_of : Fields → List String → Option String
session_of payload [] = none
session_of payload (k ∷ l) =
    let rest = session_of payload l in
    elim (session_value (get k payload)) [ none ↦ rest | some s ↦ some s ]

abbrev pub put_found : Option String → Fields → Fields
put_found none b = b
put_found (some s) b = put_session s b

abbrev schema_of : Json → Json
schema_of (obj fs) = obj fs
schema_of _ = object (("type", str "object") ∷ ("properties", object []) ∷ [])

abbrev spec_of : Fields → Json → Fields
spec_of t (obj fs) = fs
spec_of t _ = t

-- A tool, in the flat form or in the nested one of the chat protocol.
unfoldable pub tool_of : Json → Option Json
tool_of (obj t) =
    let spec = spec_of t (get "function" t) in
    let named =
      if nonempty (word (get "name" spec))
      then some (
          object (
            ("name", str (word (get "name" spec)))
            ∷ ("description", str (text_of (get "description" spec)))
            ∷ (
              "input_schema",
              schema_of (or_json (get "parameters" spec) (get "input_schema" spec)),
            )
            ∷ []))
      else none in
    if str_eq (lower (word_or "function" (get "type" t))) "function" then named else none
tool_of _ = none

abbrev pub mapped_tools : Json → List Json
mapped_tools (arr xs) = collect tool_of (items xs)
mapped_tools _ = []

abbrev pub choice_name : Fields → Option Json
choice_name choice =
    if is_truthy (get "name" choice)
    then some (get "name" choice)
    else Option.map (λ fn. get "name" fn) (part "function" choice)

abbrev pub typed : String → Json
typed t = object (("type", str t) ∷ [])

unfoldable pub put_choice : Json → Fields → Option Fields
put_choice (str s) b =
    if str_eq s "none"
    then some (remove "tools" b)
    else if str_eq s "auto"
    then some (put "tool_choice" (typed "auto") b)
    else if str_eq s "required"
    then some (put "tool_choice" (typed "any") b)
    else some b
put_choice (obj choice) b =
    if says "function" (get "type" choice)
    then Option.map (λ name. named_choice (word name) b) (choice_name choice)
    else some b
put_choice _ b = some b

abbrev pub session_keys : List String
session_keys = "prompt_cache_key" ∷ "conversation" ∷ "previous_response_id" ∷ "user" ∷ []

abbrev pub finished : Fields → Applied → Option Converted
finished payload (refused message) = some (invalid message)
finished payload (applied b) = Option.map messages_body (
    put_choice (get "tool_choice" payload) (
      put_tools (mapped_tools (get "tools" payload))
        (put_found (session_of payload session_keys) b)))

abbrev pub asked_tokens : Fields → Json
asked_tokens payload =
    or_json (get "max_output_tokens" payload)
      (or_json (get "max_tokens" payload) (get "max_completion_tokens" payload))

module _ (loads : String → Option Json) (to_float : Json → Option String) (fresh : ℕ → String) where
  unfoldable pub converted : Fields → List String → List Message → Option Converted
  converted payload system [] = some (invalid "input 未包含有效消息内容")
  converted payload system (m ∷ msgs) = as_int (asked_tokens payload) >>= λ n.
      let start = first_body payload (map message_json (m ∷ msgs)) (or_default n) in
      let sampled = sampling to_float payload (put_system system start) in
      finished payload (apply_reasoning_params payload (put_stream (get "stream" payload) sampled))

  abbrev pub from_items : Fields → Option (List Json) → Option Converted
  from_items payload none = some (invalid "input 必须是字符串或数组")
  from_items payload (some l) =
      let pieces = pieces_from loads fresh 0 l in
      converted payload (instructions (get "instructions" payload) pieces)
        (coalesce (raw_msgs [] pieces))

  abbrev pub blank_input : Fields → Converted
  blank_input payload =
      if is_truthy (get "previous_response_id" payload) then invalid blank_id else invalid no_input

  unfoldable pub responses_to_anthropic : Fields → Option Converted
  responses_to_anthropic payload =
      if is_named (get "model" payload)
      then (if is_blank (get "input" payload)
          then some (blank_input payload)
          else from_items payload (input_items (get "input" payload)))
      else some (invalid "必须提供 model 参数")
