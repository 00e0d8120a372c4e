-- ===== src/Chat/Tests.antt =====
-- Runs of the conversions of the chat protocol, and their theorems at a small request and a small stream.
use zcode2api.Prelude.{
  ◌≡◌, refl, String, Option, none, some, List, [], ◌∷◌, pos, ◌+ℤ◌, lower, strip,
}
use zcode2api.Prelude.Json
use zcode2api.Prelude.Json.{
  Json, Fields, fields, object, array, str, int, obj, end, get, get_in, put, remove, has, is_truthy,
  show, decimal,
}
use zcode2api.Prelude.Number.{as_int}
use zcode2api.Chat.{part, response_model, finish_reason}
use zcode2api.Chat.Effort.{
  refused, efforts, complaint, shape_complaint, written, apply_reasoning_params,
}
use zcode2api.Chat.Effort.Valid.{Carries}
use zcode2api.Chat.Turns.{turns, turn_of, blocks_from_user_content}
use zcode2api.Chat.Request.{
  Converted, messages_body, converted, sampling, system_parts, out_msgs, put_choice,
  openai_to_anthropic,
}
use zcode2api.Chat.Request.Checked.{openai_to_anthropic-Carries}
use zcode2api.Chat.Stream.{
  Converter, Chunk, create, relay_all, relay, feed, start, message_start, content_block_start,
  content_block_delta, message_delta, sync_usage_total,
}
use zcode2api.Chat.Stream.Tools.{Calls, Sums, relay_all-Calls}

abbrev no_json : String → Option Json
no_json s = none

abbrev no_float : Json → Option String
no_float j = none

-- Two fields ask for the same effort.
abbrev request : Fields
request = fields (
    ("model", str "glm")
    ∷ ("messages", array (object (("role", str "user") ∷ ("content", str "Hi") ∷ []) ∷ []))
    ∷ ("reasoning_effort", str "high")
    ∷ ("reasoning", object (("effort", str "high") ∷ []))
    ∷ ("tool_choice", str "required")
    ∷ [])

abbrev body_of : Option Converted → Fields
body_of (some (messages_body c)) = c
body_of _ = end

abbrev body : Fields
body = body_of (openai_to_anthropic no_json no_float request)

request_passes : openai_to_anthropic no_json no_float request ≡ some (messages_body body)
unfolding openai_to_anthropic converted turns turn_of blocks_from_user_content as_int sampling
    system_parts out_msgs put_choice apply_reasoning_params complaint shape_complaint efforts
    written Json.get Json.put Json.remove Json.has is_truthy strip
request_passes = refl

two_efforts :
    efforts request ≡ ("reasoning_effort", str "high") ∷ (("reasoning.effort", str "high") ∷ [])
unfolding efforts Json.get Json.has
two_efforts = refl

openai_to_anthropic-Carries_example : Carries request body
openai_to_anthropic-Carries_example =
    openai_to_anthropic-Carries no_json no_float request body "reasoning_effort" (str "high")
      (("reasoning.effort", str "high") ∷ []) request_passes two_efforts

-- A request whose fields name two efforts is refused.
contradiction :
    apply_reasoning_params
      (fields
        (("reasoning_effort", str "low") ∷ ("reasoning", object (("effort", str "max") ∷ [])) ∷ []))
      end
    ≡ refused "思考等级参数冲突；各字段须使用相同的 low/high/max"
unfolding apply_reasoning_params complaint shape_complaint efforts Json.get Json.has
contradiction = refl

abbrev event : String → List (String × Json) → Fields
event t l = fields (("type", str t) ∷ l)

abbrev tool : String → String → Fields
tool id name = event "content_block_start" (
    ("content_block", object (("type", str "tool_use") ∷ ("id", str id) ∷ ("name", str name) ∷ []))
    ∷ [])

abbrev arguments : String → Fields
arguments s =
    event "content_block_delta"
      (("delta", object (("type", str "input_json_delta") ∷ ("partial_json", str s) ∷ [])) ∷ [])

-- Two calls of tools.
abbrev events : List Fields
events =
    event "message_start" (("message", object (("id", str "m1") ∷ [])) ∷ [])
    ∷ tool "t1" "read"
    ∷ arguments "{}"
    ∷ tool "t2" "write"
    ∷ arguments "[]"
    ∷ event "message_delta" (
        ("delta", object (("stop_reason", str "tool_use") ∷ []))
        ∷ ("usage", object (("output_tokens", int (pos 5)) ∷ []))
        ∷ [])
    ∷ []

abbrev ended : Converter
ended = record (create "glm" "m1" 7) {
  finish_reason = some "tool_calls";
  usage = record {
    prompt_tokens = none;
    completion_tokens = some (pos 5);
    total_tokens = some (pos 5);
  };
  tool_seq = 2;
}

abbrev sent : List Chunk
sent = chunks (relay_all events (create "glm" "c0" 7))
  where
    chunks : Option (Converter × List Chunk) → List Chunk
    chunks none = []
    chunks (some out) = out.1

events_pass : relay_all events (create "glm" "c0" 7) ≡ some (ended, sent)
unfolding relay_all relay feed start message_start content_block_start content_block_delta
    message_delta sync_usage_total part finish_reason response_model is_truthy show Json.get as_int
    lower ◌+ℤ◌
events_pass = refl

relay_all-Calls_example : Calls 0 sent 2 × Sums ended.usage
relay_all-Calls_example = relay_all-Calls events "glm" "c0" 7 ended sent events_pass
