-- ===== src/Responses/Stream/Feed.antt =====
-- app/responses_compat.py: `feed`, `done` and `fail` of `ResponsesStreamConverter`. What `feed` reads of
-- an event decides whether it raises: `raises` holds what is done before, whose events are lost.
pub mod Sequence
pub mod Numbered
pub mod Simulates
pub mod Openings
pub mod Pieces
pub mod Ends
pub mod Quiet
pub mod Goes
pub mod Replies
use zcode2api.Prelude.{
  ℕ, String, Bool, true, false, Option, none, some, List, [], ◌∷◌, ◌++◌, if◌then◌else◌, str_eq,
  truthy, opt_text, or_else, ℤ, pos, ◌+ℤ◌,
}
use zcode2api.Prelude.Json
use zcode2api.Prelude.Json.{
  Json, Fields, null, bool, int, str, get, object, array, is_truthy, show, get_in,
}
use zcode2api.Prelude.Number.{as_int}
use zcode2api.Chat.{part, says, response_model}
use zcode2api.Responses.Stream.{
  Op, Event, Payload, Converter, Usage, nothing, change, looking, ◌andthen◌, emit, ensure_started,
  close_active_block,
}
use zcode2api.Responses.Stream.Deltas.{
  kind_of, start_block, thinking_delta, text_delta, signature_delta, arguments_delta,
}

pub data Reply : Type 0 where
  returns : Op → Reply
  raises : Op → Reply

abbrev pub reply : Reply → Converter → Converter × Option (List Event)
reply (returns op) c = let (d, es) = op c in (d, some es)
reply (raises op) c = ((op c).0, none)

abbrev pub named : Fields → Converter → Converter
named msg c = record c {
  model = response_model (get "model" msg) c.model;
  response_id =
      if is_truthy (get "id" msg)
      then (if c.started then c.response_id else show (get "id" msg))
      else c.response_id;
}

-- `usage[...] = n` where the event gives a number.
abbrev pub with_input : Option ℤ → Converter → Converter
with_input o c = record c {
  usage = record c.usage { input_tokens = or_else o c.usage.input_tokens };
}

abbrev kept : Option ℤ → ℤ → ℤ
kept none old = old
kept (some n) old = n

abbrev pub with_cached : Option ℤ → Converter → Converter
with_cached o c = record c {
  usage = record c.usage { cached_tokens = kept o c.usage.cached_tokens };
}

abbrev pub with_output : Option ℤ → Converter → Converter
with_output o c = record c {
  usage = record c.usage { output_tokens = or_else o c.usage.output_tokens };
}

-- A reading of the event that raises after what `before` does.
abbrev pub reading {ℓ} : {A : Type ℓ} → Option A → Op → (A → Reply) → Reply
reading none before f = raises before
reading (some a) before f = f a

unfoldable pub message_start : Fields → Reply
message_start evt = reading (part "message" evt) nothing λ msg.
    reading (part "usage" msg) (change (named msg)) λ u.
      reading (as_int (get "input_tokens" u)) (change (named msg)) λ n.
        reading (as_int (get "cache_read_input_tokens" u))
          (change (λ c. with_input n (named msg c)))
          λ k.
            returns
              (change (λ c. with_cached k (with_input n (named msg c))) andthen ensure_started)

unfoldable pub content_block_start : String → Fields → Reply
content_block_start fresh evt =
    reading (part "content_block" evt) (ensure_started andthen close_active_block)
      λ cb. returns (start_block (kind_of fresh cb))

abbrev pub chunk_op : (String → Op) → Json → Op
chunk_op f (str s) = f s
chunk_op f _ = nothing

unfoldable pub delta_op : Fields → Op
delta_op delta =
    if says "thinking_delta" (get "type" delta)
    then chunk_op thinking_delta (get "thinking" delta)
    else if says "signature_delta" (get "type" delta)
    then chunk_op signature_delta (get "signature" delta)
    else if says "text_delta" (get "type" delta)
    then chunk_op text_delta (get "text" delta)
    else if says "input_json_delta" (get "type" delta)
    then chunk_op arguments_delta (get "partial_json" delta)
    else nothing

unfoldable pub content_block_delta : Fields → Reply
content_block_delta evt =
    reading (part "delta" evt) ensure_started
      λ delta. returns (ensure_started andthen delta_op delta)

abbrev pub stopped : Fields → Converter → Converter
stopped delta c = record c {
  stop_reason =
      if is_truthy (get "stop_reason" delta)
      then some (show (get "stop_reason" delta))
      else c.stop_reason;
}

unfoldable pub message_delta : Fields → Reply
message_delta evt = reading (part "delta" evt) nothing λ delta.
    reading (part "usage" evt) (change (stopped delta)) λ u.
      reading (as_int (get "output_tokens" u)) (change (stopped delta))
        λ n. returns (change (λ c. with_output n (stopped delta c)))

abbrev or_zero : Option ℤ → ℤ
or_zero none = pos 0
or_zero (some n) = n

abbrev final_usage : Usage → Json
final_usage u = object (
    ("input_tokens", int (or_zero u.input_tokens))
    ∷ ("input_tokens_details", object (("cached_tokens", int u.cached_tokens) ∷ []))
    ∷ ("output_tokens", int (or_zero u.output_tokens))
    ∷ ("output_tokens_details", object (("reasoning_tokens", int (pos 0)) ∷ []))
    ∷ ("total_tokens", int (or_zero u.input_tokens +ℤ or_zero u.output_tokens))
    ∷ [])

abbrev outline : String → Converter → Payload
outline status c =
    ("id", str c.response_id)
    ∷ ("object", str "response")
    ∷ ("created_at", int (pos c.created_at))
    ∷ ("status", str status)
    ∷ ("background", bool false)
    ∷ []

abbrev pub is_incomplete : Converter → Bool
is_incomplete c = str_eq (opt_text c.stop_reason) "max_tokens"

abbrev reasoning : Option String → Payload
reasoning effort =
    if truthy effort
    then ("reasoning", object (("effort", str (opt_text effort)) ∷ [])) ∷ []
    else []

unfoldable pub final_response : Converter → Json
final_response c = object (
    outline (if is_incomplete c then "incomplete" else "completed") c
    ++ (("error", null)
        ∷ (
          "incomplete_details",
          if is_incomplete c then object (("reason", str "max_output_tokens") ∷ []) else null,
        )
        ∷ ("model", str c.model)
        ∷ ("output", array c.output_items)
        ∷ ("usage", final_usage c.usage)
        ∷ reasoning c.effort))

unfoldable pub failed_response : String → String → Converter → Json
failed_response message code c = object (
    outline "failed" c
    ++ (("error", object (("code", str code) ∷ ("message", str message) ∷ []))
        ∷ ("model", str c.model)
        ∷ ("output", array c.output_items)
        ∷ []))

-- The end of the stream, once.
unfoldable pub finish : (Converter → String) → (Converter → Json) → Op
finish event_type response = looking λ c.
    if c.finished
    then nothing
    else ((ensure_started andthen close_active_block)
        andthen (change (λ d. record d { finished = true })
            andthen looking λ d. emit (event_type d) (("response", response d) ∷ [])))

abbrev pub done_type : Converter → String
done_type c = if is_incomplete c then "response.incomplete" else "response.completed"

unfoldable pub done : Op
unfolding finish final_response
done = finish done_type final_response

unfoldable pub fail : String → String → Op
unfolding finish failed_response
fail message code = finish (λ c. "response.failed") (failed_response message code)

-- `feed`; `fresh` stands for the identifier that is drawn for a call without one.
unfoldable pub feed : String → Fields → Reply
feed fresh evt =
    if says "message_start" (get "type" evt)
    then message_start evt
    else if says "content_block_start" (get "type" evt)
    then content_block_start fresh evt
    else if says "content_block_delta" (get "type" evt)
    then content_block_delta evt
    else if says "content_block_stop" (get "type" evt)
    then returns close_active_block
    else if says "message_delta" (get "type" evt)
    then message_delta evt
    else if says "message_stop" (get "type" evt)
    then returns done
    else returns nothing
