-- ===== src/Responses/Answer.antt =====
-- app/responses_compat.py: `anthropic_to_responses`, a whole answer of the messages protocol as a response
-- object. `fresh` draws the identifiers, the response's at 0 and that of the block at a place behind it.
pub mod Texts
use zcode2api.Prelude.{
  ℕ, suc, String, Bool, true, false, Option, none, some, List, [], ◌∷◌, ◌++◌, if◌then◌else◌, concat,
  nonempty, truthy, opt_text, length, ◌>>=◌, ℤ, pos, ◌+ℤ◌,
}
use zcode2api.Prelude.Dumps.{dumps, spaced}
use zcode2api.Prelude.Json
use zcode2api.Prelude.Json.{
  Json, Fields, null, bool, int, str, obj, end, get, object, array, is_truthy, or_json, show,
  as_str, decimal,
}
use zcode2api.Prelude.Number.{as_int}
use zcode2api.Chat.{part, says, text_of, iterated, response_model}
use zcode2api.Chat.Answer.{count_or_zero}

-- An item of the output; a message may still take more text.
pub data Item : Type 0 where
  reasoning : String → String → String → Item
  message : String → List String → Item
  call : String → String → String → Item

abbrev output_text : String → Json
output_text s = object (
    ("type", str "output_text")
    ∷ ("text", str s)
    ∷ ("annotations", array [])
    ∷ ("logprobs", array [])
    ∷ [])

abbrev texts : List String → List Json
texts [] = []
texts (s ∷ l) = output_text s ∷ texts l

abbrev summary : String → List Json
summary s =
    if nonempty s then object (("type", str "summary_text") ∷ ("text", str s) ∷ []) ∷ [] else []

abbrev item_json : Item → Json
item_json (reasoning id signature s) = object (
    ("id", str id)
    ∷ ("type", str "reasoning")
    ∷ ("status", str "completed")
    ∷ ("encrypted_content", str signature)
    ∷ ("summary", array (summary s))
    ∷ [])
item_json (message id l) = object (
    ("id", str id)
    ∷ ("type", str "message")
    ∷ ("role", str "assistant")
    ∷ ("status", str "completed")
    ∷ ("content", array (texts l))
    ∷ [])
item_json (call call_id name arguments) = object (
    ("id", str (concat ("fc_" ∷ call_id ∷ [])))
    ∷ ("type", str "function_call")
    ∷ ("call_id", str call_id)
    ∷ ("name", str name)
    ∷ ("arguments", str arguments)
    ∷ ("status", str "completed")
    ∷ [])

abbrev pub numbered : String → String → ℕ → String
numbered kind response_id n = concat (kind ∷ "_" ∷ response_id ∷ "_" ∷ decimal n ∷ [])

-- A text joins the message that the output ends with, or starts one.
unfoldable pub add_text : String → ℕ → String → List Item → List Item
add_text response_id n s [] = message (numbered "msg" response_id n) (s ∷ []) ∷ []
add_text response_id n s (message id l ∷ []) = message id (l ++ s ∷ []) ∷ []
add_text response_id n s (x ∷ []) = x ∷ (message (numbered "msg" response_id (suc n)) (s ∷ []) ∷ [])
add_text response_id n s (x ∷ (y ∷ l)) = x ∷ add_text response_id (suc n) s (y ∷ l)

abbrev pub add_some_text : String → Json → List Item → List Item
add_some_text response_id (str s) out = add_text response_id 0 s out
add_some_text response_id _ out = out

abbrev pub reasoning_of : String → Fields → ℕ → Item
reasoning_of response_id b n =
    reasoning (numbered "rs" response_id n) (text_of (get "signature" b))
      (text_of (get "thinking" b))

abbrev pub call_of : String → Fields → Item
call_of fresh b =
    call (if is_truthy (get "id" b) then show (get "id" b) else fresh) (text_of (get "name" b))
      (dumps spaced (or_json (get "input" b) (obj end)))

-- One round of the loop over the blocks.
unfoldable pub add_block : String → String → Json → List Item → List Item
add_block response_id fresh (obj b) out =
    if says "thinking" (get "type" b)
    then out ++ reasoning_of response_id b (length out) ∷ []
    else if says "text" (get "type" b)
    then add_some_text response_id (get "text" b) out
    else if says "tool_use" (get "type" b)
    then out ++ call_of fresh b ∷ []
    else out
add_block response_id fresh _ out = out

unfoldable pub add_blocks : (ℕ → String) → ℕ → String → List Json → List Item → List Item
add_blocks fresh n response_id [] out = out
add_blocks fresh n response_id (b ∷ l) out =
    add_blocks fresh (suc n) response_id l (add_block response_id (fresh n) b out)

abbrev items_json : List Item → List Json
items_json [] = []
items_json (x ∷ l) = item_json x ∷ items_json l

abbrev pub some_text : Json → List String
some_text (str s) = s ∷ []
some_text _ = []

-- What a block adds to `text_parts`.
abbrev pub block_texts : Json → List String
block_texts (obj b) =
    if says "thinking" (get "type" b)
    then []
    else if says "text" (get "type" b)
    then some_text (get "text" b)
    else []
block_texts _ = []

unfoldable pub texts_of : List Json → List String
texts_of [] = []
texts_of (b ∷ l) = block_texts b ++ texts_of l

-- `_build_usage`
unfoldable pub build_usage : Fields → Option Json
build_usage u = do
  input ← as_int (get "input_tokens" u)
  output ← as_int (get "output_tokens" u)
  cached ← as_int (get "cache_read_input_tokens" u)
  let i = count_or_zero input
  let o = count_or_zero output
  some (
      object (
        ("input_tokens", int i)
        ∷ ("input_tokens_details", object (("cached_tokens", int (count_or_zero cached)) ∷ []))
        ∷ ("output_tokens", int o)
        ∷ ("output_tokens_details", object (("reasoning_tokens", int (pos 0)) ∷ []))
        ∷ ("total_tokens", int (i +ℤ o))
        ∷ []))

abbrev effort_field : Option String → List (String × Json)
effort_field effort =
    if truthy effort
    then ("reasoning", object (("effort", str (opt_text effort)) ∷ [])) ∷ []
    else []

unfoldable pub anthropic_to_responses :
    (ℕ → String) → ℕ → String → Option String → Fields → Option Json
anthropic_to_responses fresh now model effort answer = do
  blocks ← iterated (get "content" answer)
  usage ← part "usage" answer
  counts ← build_usage usage
  let id = if is_truthy (get "id" answer) then show (get "id" answer) else fresh 0
  let incomplete = says "max_tokens" (get "stop_reason" answer)
  some (
      object (
        ("id", str id)
        ∷ ("object", str "response")
        ∷ ("created_at", int (pos now))
        ∷ ("status", str (if incomplete then "incomplete" else "completed"))
        ∷ ("background", bool false)
        ∷ ("error", null)
        ∷ (
          "incomplete_details",
          if incomplete then object (("reason", str "max_output_tokens") ∷ []) else null,
        )
        ∷ ("model", str (response_model (get "model" answer) model))
        ∷ ("output", array (items_json (add_blocks fresh 1 id blocks [])))
        ∷ ("output_text", str (concat (texts_of blocks)))
        ∷ ("usage", counts)
        ∷ effort_field effort))
