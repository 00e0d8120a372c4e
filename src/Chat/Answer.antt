-- ===== src/Chat/Answer.antt =====
-- app/openai_compat.py: `anthropic_to_openai`, a whole answer of the messages protocol as an answer of
-- the chat protocol. `fresh` is the identifier that is drawn and `now` the time; `none` is an exception.
use zcode2api.Prelude.{
  ℕ, String, Bool, Option, none, some, List, [], ◌∷◌, ◌++◌, if◌then◌else◌, concat, nonempty,
  is_empty, ◌>>=◌, ℤ, pos, ◌+ℤ◌,
}
use zcode2api.Prelude.Dumps.{dumps, spaced}
use zcode2api.Prelude.Json.{
  Json, Fields, null, int, str, obj, end, get, object, array, is_truthy, get_in, or_json, show,
  as_str,
}
use zcode2api.Prelude.Number.{as_int}
use zcode2api.Chat.{part, says, text_of, collect, iterated, finish_reason, response_model}

abbrev thinking_part : Json → Option String
thinking_part b = if says "thinking" (get_in "type" b) then as_str (get_in "thinking" b) else none

abbrev text_part : Json → Option String
text_part b = if says "text" (get_in "type" b) then as_str (get_in "text" b) else none

abbrev tool_call : Json → Option Json
tool_call b =
    if says "tool_use" (get_in "type" b)
    then some (
        object (
          ("id", str (text_of (get_in "id" b)))
          ∷ ("type", str "function")
          ∷ (
            "function",
            object (
                ("name", str (text_of (get_in "name" b)))
                ∷ ("arguments", str (dumps spaced (or_json (get_in "input" b) (obj end))))
                ∷ []),
          )
          ∷ []))
    else none

-- `_as_int(x) or 0`
abbrev pub count_or_zero : Option ℤ → ℤ
count_or_zero none = pos 0
count_or_zero (some n) = n

abbrev or_null : String → Json
or_null s = if nonempty s then str s else null

abbrev optional : Bool → String → Json → List (String × Json)
optional absent k v = if absent then [] else (k, v) ∷ []

abbrev message_of : List Json → Json
message_of blocks =
    let thinking = collect thinking_part blocks in
    let calls = collect tool_call blocks in
    object (
      ("role", str "assistant")
      ∷ ("content", or_null (concat (collect text_part blocks)))
      ∷ (optional (is_empty thinking) "reasoning_content" (str (concat thinking))
          ++ optional (is_empty calls) "tool_calls" (array calls)))

abbrev usage_of : ℤ → ℤ → Json
usage_of prompt completion = object (
    ("prompt_tokens", int prompt)
    ∷ ("completion_tokens", int completion)
    ∷ ("total_tokens", int (prompt +ℤ completion))
    ∷ [])

unfoldable pub anthropic_to_openai : String → ℕ → String → Fields → Option Json
anthropic_to_openai fresh now model answer = do
  blocks ← iterated (get "content" answer)
  usage ← part "usage" answer
  prompt ← as_int (get "input_tokens" usage)
  completion ← as_int (get "output_tokens" usage)
  reason ← finish_reason (get "stop_reason" answer)
  let choice =
      object (
        ("index", int (pos 0))
        ∷ ("message", message_of blocks)
        ∷ ("finish_reason", str reason)
        ∷ [])
  some (
      object (
        ("id", str (if is_truthy (get "id" answer) then show (get "id" answer) else fresh))
        ∷ ("object", str "chat.completion")
        ∷ ("created", int (pos now))
        ∷ ("model", str (response_model (get "model" answer) model))
        ∷ ("choices", array (choice ∷ []))
        ∷ ("usage", usage_of (count_or_zero prompt) (count_or_zero completion))
        ∷ []))
