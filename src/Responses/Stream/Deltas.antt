-- ===== src/Responses/Stream/Deltas.antt =====
-- app/responses_compat.py: the branches of `ResponsesStreamConverter.feed` that open blocks and add to
-- them.
use zcode2api.Prelude.{
  String, Option, none, some, [], ◌∷◌, ◌++◌, if◌then◌else◌, concat, length, ℕ, pos,
}
use zcode2api.Prelude.Json.{Json, Fields, int, str, get, object, array, is_truthy, show, decimal}
use zcode2api.Chat.{says, text_of}
use zcode2api.Responses.Stream.{
  Op, Payload, Kind, thinking, text, tool_use, Block, nothing, change, looking, ◌andthen◌, emit,
  ensure_started, close_active_block,
}

abbrev index : ℕ → Json
index n = int (pos n)

abbrev pub item_id_of : Kind → String → ℕ → String
item_id_of (thinking signature) response_id n = concat ("rs_" ∷ response_id ∷ "_" ∷ decimal n ∷ [])
item_id_of text response_id n = concat ("msg_" ∷ response_id ∷ "_" ∷ decimal n ∷ [])
item_id_of (tool_use call_id name) response_id n = concat ("fc_" ∷ call_id ∷ [])

abbrev pub at_item : String → ℕ → Payload
at_item id n = ("item_id", str id) ∷ ("output_index", index n) ∷ []

abbrev opened : String → ℕ → Json → Payload
opened id n item = ("output_index", index n) ∷ ("item", item) ∷ []

-- The events that open an item.
unfoldable pub announce : Kind → String → ℕ → Op
announce (thinking signature) id n =
    emit "response.output_item.added" (
      opened id n (
        object (
          ("id", str id)
          ∷ ("type", str "reasoning")
          ∷ ("status", str "in_progress")
          ∷ ("encrypted_content", str signature)
          ∷ ("summary", array [])
          ∷ [])))
    andthen emit "response.reasoning_summary_part.added" (
        at_item id n
        ++ (("summary_index", index 0)
            ∷ ("part", object (("type", str "summary_text") ∷ ("text", str "") ∷ []))
            ∷ []))
announce text id n =
    emit "response.output_item.added" (
      opened id n (
        object (
          ("id", str id)
          ∷ ("type", str "message")
          ∷ ("status", str "in_progress")
          ∷ ("content", array [])
          ∷ ("role", str "assistant")
          ∷ [])))
    andthen emit "response.content_part.added" (
        at_item id n
        ++ (("content_index", index 0)
            ∷ (
              "part",
              object (
                  ("type", str "output_text")
                  ∷ ("annotations", array [])
                  ∷ ("logprobs", array [])
                  ∷ ("text", str "")
                  ∷ []),
            )
            ∷ []))
announce (tool_use call_id name) id n = emit "response.output_item.added" (
    opened id n (
      object (
        ("id", str id)
        ∷ ("type", str "function_call")
        ∷ ("status", str "in_progress")
        ∷ ("call_id", str call_id)
        ∷ ("name", str name)
        ∷ ("arguments", str "")
        ∷ [])))

unfoldable pub open_block : Kind → Op
unfolding announce
open_block kind = looking λ c.
    let n = length c.output_items in
    let id = item_id_of kind c.response_id n in
    let block : Block = record { kind = kind; output_index = n; item_id = id; buffer = [] } in
    change (λ d. record d { active_block = some block }) andthen announce kind id n

-- The block that a content block of the upstream starts; `fresh` stands for the drawn identifier.
unfoldable pub kind_of : String → Fields → Option Kind
kind_of fresh cb =
    if says "thinking" (get "type" cb)
    then some (thinking (text_of (get "signature" cb)))
    else if says "text" (get "type" cb)
    then some text
    else if says "tool_use" (get "type" cb)
    then some (
        tool_use (if is_truthy (get "id" cb) then show (get "id" cb) else fresh)
          (text_of (get "name" cb)))
    else none

-- `feed` at `content_block_start`
unfoldable pub start_block : Option Kind → Op
start_block none = ensure_started andthen close_active_block
start_block (some kind) = (ensure_started andthen close_active_block) andthen open_block kind

abbrev pub appended : String → Block → Block
appended chunk b = record b { buffer = b.buffer ++ chunk ∷ [] }

-- A piece of text is added to the open block and sent on.
unfoldable pub push : String → Payload → String → Block → Op
push event_type extra chunk b =
    change (λ c. record c { active_block = some (appended chunk b) })
    andthen emit event_type (at_item b.item_id b.output_index ++ extra)

unfoldable pub push_thinking : String → Block → Op
unfolding push
push_thinking chunk =
    push "response.reasoning_summary_text.delta"
      (("summary_index", index 0) ∷ ("delta", str chunk) ∷ []) chunk

unfoldable pub push_text : String → Block → Op
unfolding push
push_text chunk =
    push "response.output_text.delta"
      (("content_index", index 0) ∷ ("delta", str chunk) ∷ ("logprobs", array []) ∷ []) chunk

unfoldable pub push_arguments : String → String → Block → Op
unfolding push
push_arguments call_id chunk =
    push "response.function_call_arguments.delta"
      (("call_id", str call_id) ∷ ("delta", str chunk) ∷ []) chunk

-- What the block that is open does with a piece, or what happens without a block of its kind.
abbrev pub with_block : Option Block → (Block → Op) → Op → Op
with_block none f g = g
with_block (some b) f g = f b

-- `f` where the open block is of the kind, else `g`.
abbrev pub on_thinking : (Block → Op) → Op → Block → Kind → Op
on_thinking f g b (thinking signature) = f b
on_thinking f g b _ = g

abbrev pub on_text : (Block → Op) → Op → Block → Kind → Op
on_text f g b text = f b
on_text f g b _ = g

abbrev pub on_tool : (String → Block → Op) → Op → Block → Kind → Op
on_tool f g b (tool_use call_id name) = f call_id b
on_tool f g b _ = g

unfoldable pub thinking_delta : String → Op
unfolding push_thinking
thinking_delta chunk =
    let fresh_block : Op =
      start_block (some (thinking ""))
      andthen looking λ c. with_block c.active_block (push_thinking chunk) nothing in
    looking λ c.
      with_block c.active_block (λ b. on_thinking (push_thinking chunk) fresh_block b b.kind)
        fresh_block

unfoldable pub text_delta : String → Op
unfolding push_text
text_delta chunk =
    let fresh_block : Op =
      start_block (some text)
      andthen looking λ c. with_block c.active_block (push_text chunk) nothing in
    looking λ c.
      with_block c.active_block (λ b. on_text (push_text chunk) fresh_block b b.kind) fresh_block

abbrev pub signed : String → Block → Kind → Block
signed more b (thinking signature) = record b { kind = thinking (concat (signature ∷ more ∷ [])) }
signed more b _ = b

abbrev pub signed_block : String → Option Block → Option Block
signed_block more none = none
signed_block more (some b) = some (signed more b b.kind)

unfoldable pub signature_delta : String → Op
signature_delta more = change λ c. record c { active_block = signed_block more c.active_block }

unfoldable pub arguments_delta : String → Op
unfolding push_arguments
arguments_delta chunk = looking λ c.
    with_block c.active_block
      (λ b. on_tool (λ call_id. push_arguments call_id chunk) nothing b b.kind) nothing
