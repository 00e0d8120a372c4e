-- ===== src/Responses/Stream.antt =====
-- app/responses_compat.py: `ResponsesStreamConverter`, its state, the events it emits and the blocks it
-- opens and closes. An operation returns the events in the order in which `_emit` numbers them.
pub mod Deltas
pub mod Phase
pub mod Feed
pub mod Serve
mod Tests
use zcode2api.Prelude.{
  ℕ, suc, String, Bool, true, false, Option, none, some, List, [], ◌∷◌, ◌++◌, concat, if◌then◌else◌,
  length, is_some, str_eq, truthy, ℤ, pos,
}
use zcode2api.Prelude.Dumps.{dumps, spaced}
use zcode2api.Prelude.Json
use zcode2api.Prelude.Json.{
  Json, Fields, null, bool, int, str, arr, obj, nil, cons, end, field, get, fields, object, array,
  is_truthy, show, decimal,
}
use zcode2api.Chat.{text_of}

abbrev pub Payload : Type 0
Payload = List (String × Json)

-- One server-sent event; its data hold its type and its number before the payload.
pub record Event : Type 0 where
  pub event_type : String
  pub sequence_number : ℕ
  pub payload : Payload

-- The text that `_emit` returns.
unfoldable pub frame : Event → String
frame e =
    let fields =
      ("type", str e.event_type) ∷ ("sequence_number", int (pos e.sequence_number)) ∷ e.payload in
    concat ("event: " ∷ e.event_type ∷ "\ndata: " ∷ dumps spaced (object fields) ∷ "\n\n" ∷ [])

pub data Kind : Type 0 where
  thinking : String → Kind
  text : Kind
  tool_use : String → String → Kind

-- `_active_block`: a thinking block has its signature, a tool call its identifier and name.
pub record Block : Type 0 where
  pub kind : Kind
  pub output_index : ℕ
  pub item_id : String
  pub buffer : List String

pub record Usage : Type 0 where
  pub input_tokens : Option ℤ
  pub output_tokens : Option ℤ
  pub cached_tokens : ℤ

pub record Converter : Type 0 where
  pub model : String
  pub effort : Option String
  pub response_id : String
  pub created_at : ℕ
  pub stop_reason : Option String
  pub usage : Usage
  pub seq : ℕ
  pub started : Bool
  pub finished : Bool
  pub output_items : List Json
  pub active_block : Option Block

-- `ResponsesStreamConverter(model, effort)`
abbrev pub create : String → Option String → String → ℕ → Converter
create model effort response_id now = record {
  model = model;
  effort = effort;
  response_id = response_id;
  created_at = now;
  stop_reason = none;
  usage = record { input_tokens = none; output_tokens = none; cached_tokens = pos 0 };
  seq = 0;
  started = false;
  finished = false;
  output_items = [];
  active_block = none;
}

-- What a method does to the converter, with the events that it emits.
abbrev pub Op : Type 0
Op = Converter → Converter × List Event

abbrev pub nothing : Op
nothing c = (c, [])

abbrev pub change : (Converter → Converter) → Op
change f c = (f c, [])

infixr 20 ◌andthen◌
abbrev pub ◌andthen◌ : Op → Op → Op
◌andthen◌ m k c = let (d, es) = m c in let (e, fs) = k d in (e, es ++ fs)

-- An operation that first looks at the converter.
abbrev pub looking : (Converter → Op) → Op
looking f c = f c c

-- `_emit`
unfoldable pub emit : String → Payload → Op
emit event_type payload c = (
  record c { seq = suc c.seq },
  record { event_type = event_type; sequence_number = suc c.seq; payload = payload } ∷ [],
)

abbrev index : ℕ → Json
index n = int (pos n)

abbrev outline : String → Converter → Payload
outline status c =
    ("id", str c.response_id)
    ∷ ("object", str "response")
    ∷ ("created_at", index c.created_at)
    ∷ ("status", str status)
    ∷ []

unfoldable pub begin : Op
unfolding emit
begin =
    change (λ c. record c { started = true })
    andthen looking λ c.
      emit "response.created" (
        (
          "response",
          object (
              outline "in_progress" c
              ++ (("background", bool false)
                  ∷ ("error", null)
                  ∷ ("output", array [])
                  ∷ ("model", str c.model)
                  ∷ [])),
        )
        ∷ [])
      andthen emit "response.in_progress" (
          (
            "response",
            object
                (outline "in_progress" c ++ (("output", array []) ∷ ("model", str c.model) ∷ [])),
          )
          ∷ [])

-- `_ensure_started`, which is `start` too
unfoldable pub ensure_started : Op
ensure_started c = if c.started then (c, []) else begin c

abbrev at_block : Block → Payload
at_block b = ("item_id", str b.item_id) ∷ ("output_index", index b.output_index) ∷ []

abbrev summary_text : String → Json
summary_text s = object (("type", str "summary_text") ∷ ("text", str s) ∷ [])

abbrev output_text : String → Json
output_text s = object (
    ("type", str "output_text")
    ∷ ("annotations", array [])
    ∷ ("logprobs", array [])
    ∷ ("text", str s)
    ∷ [])

-- The finished item of a block.
unfoldable pub done_item : Block → Kind → String → Json
done_item b (thinking signature) s = object (
    ("id", str b.item_id)
    ∷ ("type", str "reasoning")
    ∷ ("status", str "completed")
    ∷ ("encrypted_content", str signature)
    ∷ ("summary", array (summary_text s ∷ []))
    ∷ [])
done_item b text s = object (
    ("id", str b.item_id)
    ∷ ("type", str "message")
    ∷ ("status", str "completed")
    ∷ ("content", array (output_text s ∷ []))
    ∷ ("role", str "assistant")
    ∷ [])
done_item b (tool_use call_id name) s = object (
    ("id", str b.item_id)
    ∷ ("type", str "function_call")
    ∷ ("status", str "completed")
    ∷ ("call_id", str call_id)
    ∷ ("name", str name)
    ∷ ("arguments", str s)
    ∷ [])

-- What closing a block emits before its item.
unfoldable pub close_text : Block → Kind → String → Op
close_text b (thinking signature) s =
    emit "response.reasoning_summary_text.done"
      (at_block b ++ (("summary_index", index 0) ∷ ("text", str s) ∷ []))
    andthen emit "response.reasoning_summary_part.done"
        (at_block b ++ (("summary_index", index 0) ∷ ("part", summary_text s) ∷ []))
close_text b text s =
    emit "response.output_text.done"
      (at_block b ++ (("content_index", index 0) ∷ ("text", str s) ∷ ("logprobs", array []) ∷ []))
    andthen emit "response.content_part.done"
        (at_block b ++ (("content_index", index 0) ∷ ("part", output_text s) ∷ []))
close_text b (tool_use call_id name) s =
    emit "response.function_call_arguments.done"
      (at_block b ++ (("call_id", str call_id) ∷ ("name", str name) ∷ ("arguments", str s) ∷ []))

unfoldable pub close_block : Block → Op
unfolding emit done_item close_text
close_block b =
    let item = done_item b b.kind (concat b.buffer) in
    change (λ c. record c { active_block = none })
    andthen (close_text b b.kind (concat b.buffer)
        andthen (emit "response.output_item.done"
              (("output_index", index b.output_index) ∷ ("item", item) ∷ [])
            andthen change (λ c. record c { output_items = c.output_items ++ item ∷ [] })))

-- `_close_active_block`
unfoldable pub close_active_block : Op
unfolding close_block
close_active_block c = elim c.active_block [ none ↦ (c, []) | some b ↦ close_block b c ]
