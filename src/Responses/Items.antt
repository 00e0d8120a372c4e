-- ===== src/Responses/Items.antt =====
-- app/responses_compat.py: the items of a request's input, one by one. `loads` is `json.loads` of a text,
-- `none` where it raises; `fresh` is the identifier that is drawn for a call without one.
use zcode2api.Prelude.{
  String, Bool, true, false, Option, none, some, List, [], ◌∷◌, if◌then◌else◌, str_eq, nonempty,
  strip, lower, text_or, joined, member, ◌&&◌, ◌||◌,
}
use zcode2api.Prelude.Dumps.{dumps, spaced}
use zcode2api.Prelude.Json.{
  Json, Fields, null, bool, str, arr, obj, get, has, object, items, or_json, as_str,
}
use zcode2api.Chat.{text_of, collect, nonempty_texts, text_block, image_block}

abbrev is_one_of : List String → Json → Bool
is_one_of l (str s) = member s l
is_one_of l _ = false

abbrev text_kinds : List String
text_kinds = "text" ∷ "input_text" ∷ "output_text" ∷ []

abbrev response_part : Json → Option String
response_part (str s) = if nonempty s then some s else none
response_part (obj fs) =
    if is_one_of ("summary_text" ∷ text_kinds) (get "type" fs) then as_str (get "text" fs) else none
response_part _ = none

-- `_text_from_response_part`
unfoldable pub text_from_response_part : Json → String
text_from_response_part (str s) = s
text_from_response_part (arr xs) = joined "\n" (nonempty_texts (collect response_part (items xs)))
text_from_response_part _ = ""

abbrev text_blocks : String → List Json
text_blocks s = if nonempty s then text_block s ∷ [] else []

-- `raw_url = part.get("image_url")`, and its own `url` where it is an object; then `str(raw_url or "")`.
abbrev url_text : Json → String
url_text (obj fs) = text_of (or_json (get "url" fs) (str ""))
url_text j = text_of j

abbrev image_part : String → Fields → Option Json
image_part role fs =
    if str_eq role "user" && is_one_of ("input_image" ∷ "image_url" ∷ []) (get "type" fs)
    then image_block (url_text (get "image_url" fs))
    else none

abbrev some_text : String → Option Json
some_text s = if nonempty s then some (text_block s) else none

abbrev message_block : String → Json → Option Json
message_block role (str s) = some_text s
message_block role (obj fs) =
    elim (if is_one_of text_kinds (get "type" fs) then as_str (get "text" fs) else none) [
      | some s ↦ some_text s
      | none ↦ image_part role fs
    ]
message_block role _ = none

-- `_blocks_from_message_content`
unfoldable pub blocks_from_message_content : Json → String → List Json
blocks_from_message_content (str s) role = text_blocks s
blocks_from_message_content (arr xs) role = collect (message_block role) (items xs)
blocks_from_message_content _ role = []

-- `_stringify_tool_output`
unfoldable pub stringify_tool_output : Json → String
unfolding text_from_response_part
stringify_tool_output (str s) = s
stringify_tool_output null = ""
stringify_tool_output (arr xs) = text_or (text_from_response_part (arr xs)) (dumps spaced (arr xs))
stringify_tool_output j = dumps spaced j

-- What an item gives: nothing, a text for the system prompt, or blocks of a role.
pub data Piece : Type 0 where
  skipped : Piece
  instruction : String → Piece
  blocks : String → List Json → Piece

-- `str(x or d).strip()`
abbrev pub word : Json → String
word j = strip (text_of j)

abbrev pub word_or : String → Json → String
word_or d j = strip (text_or (text_of j) d)

abbrev instructed : String → Piece
instructed s = if nonempty s then instruction s else skipped

abbrev message_piece : Fields → Piece
message_piece item =
    let role = lower (word_or "user" (get "role" item)) in
    let content = get "content" item in
    if member role ("system" ∷ "developer" ∷ [])
    then instructed (text_from_response_part content)
    else if str_eq role "assistant"
    then blocks "assistant" (blocks_from_message_content content "assistant")
    else blocks "user" (blocks_from_message_content content "user")

-- A reasoning item comes back as a thinking block only with its signature.
abbrev signed_thinking : Json → String → Piece
signed_thinking (str sig) s =
    if nonempty (strip sig) && nonempty s
    then blocks "assistant" (
        object
          (("type", str "thinking") ∷ ("thinking", str s) ∷ ("signature", str (strip sig)) ∷ [])
        ∷ [])
    else skipped
signed_thinking _ s = skipped

unfoldable pub reasoning_piece : Fields → Piece
reasoning_piece item =
    signed_thinking (get "encrypted_content" item)
      (text_from_response_part (or_json (get "summary" item) (get "content" item)))

abbrev raw_object : String → String → Json
raw_object key s = object ((key, str s) ∷ [])

abbrev object_or : String → String → Option Json → Json
object_or key s (some (obj fs)) = obj fs
object_or key s _ = raw_object key s

module _ (loads : String → Option Json) where
  -- The arguments of a call, kept raw under `key` where they are no object.
  abbrev arguments_of : String → Json → Json
  arguments_of key (str s) = if nonempty (strip s) then object_or key s (loads s) else object []
  arguments_of key (obj fs) = obj fs
  arguments_of key _ = object []

  unfoldable pub call_piece : String → Bool → Fields → Piece
  call_piece fresh custom item =
      let id = text_or (word (or_json (get "call_id" item) (get "id" item))) fresh in
      let input =
        if custom
        then arguments_of "input" (get "input" item)
        else arguments_of "_raw" (get "arguments" item) in
      if nonempty (word (get "name" item))
      then blocks "assistant" (
          object (
            ("type", str "tool_use")
            ∷ ("id", str id)
            ∷ ("name", str (word (get "name" item)))
            ∷ ("input", input)
            ∷ [])
          ∷ [])
      else skipped

abbrev is_true : Json → Bool
is_true (bool true) = true
is_true _ = false

unfoldable pub output_piece : Fields → Piece
output_piece item =
    let id = word (or_json (get "call_id" item) (get "id" item)) in
    let failed =
      is_one_of ("failed" ∷ "incomplete" ∷ []) (get "status" item)
      || is_true (get "is_error" item) in
    if nonempty id
    then blocks "user" (
        object (
          ("type", str "tool_result")
          ∷ ("tool_use_id", str id)
          ∷ ("content", str (stringify_tool_output (get "output" item)))
          ∷ (if failed then ("is_error", bool true) ∷ [] else []))
        ∷ [])
    else skipped

unfoldable pub other_piece : Fields → Piece
other_piece item =
    blocks "user"
      (text_blocks (text_from_response_part (or_json (get "content" item) (get "text" item))))

module _ (loads : String → Option Json) where
  -- One round of the loop over the items.
  unfoldable pub piece_of : String → Json → Piece
  piece_of fresh (str s) = blocks "user" (text_blocks s)
  piece_of fresh (obj item) =
      let kind = lower (word (get "type" item)) in
      if str_eq kind "message" || (str_eq kind "" && has "role" item)
      then message_piece item
      else if str_eq kind "reasoning"
      then reasoning_piece item
      else if member kind ("function_call" ∷ "custom_tool_call" ∷ [])
      then call_piece loads fresh (str_eq kind "custom_tool_call") item
      else if member kind ("function_call_output" ∷ "custom_tool_call_output" ∷ [])
      then output_piece item
      else other_piece item
  piece_of fresh _ = skipped
