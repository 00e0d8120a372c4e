-- ===== src/Responses/Tests.antt =====
-- Runs of the conversions of requests and answers of the responses protocol, and their theorems there.
use zcode2api.Prelude.{ℕ, ◌≡◌, refl, String, Bool, Option, none, some, List, [], ◌∷◌, lower, strip}
use zcode2api.Prelude.Json
use zcode2api.Prelude.Json.{
  Json, Fields, fields, object, array, str, obj, end, get, get_in, put, remove, has, is_truthy,
  show, decimal,
}
use zcode2api.Prelude.Number.{as_int}
use zcode2api.Chat.{says}
use zcode2api.Chat.Effort.{efforts, complaint, shape_complaint, written, apply_reasoning_params}
use zcode2api.Chat.Request.{Converted, messages_body, sampling}
use zcode2api.Responses.Messages.{
  Message, append_blocks, arranged, merged, merge_last, absorb, coalesce_from, coalesce,
}
use zcode2api.Responses.Messages.Coalesced.{Clean}
use zcode2api.Responses.Messages.Loop.{total, coalesce-Clean, total-coalesce}
use zcode2api.Responses.Items.{piece_of, blocks_from_message_content}
use zcode2api.Responses.Request.{
  converted, instructions, raw_msgs, pieces_from, session_of, put_choice, responses_to_anthropic,
}
use zcode2api.Responses.Request.Sound.{CleanBody, responses_to_anthropic-CleanBody}
use zcode2api.Responses.Answer.{add_blocks, texts_of}
use zcode2api.Responses.Answer.Texts.{item_texts, item_texts-add_blocks}

abbrev typed : String → Json
typed t = object (("type", str t) ∷ [])

abbrev said : String → Json
said s = object (("type", str "text") ∷ ("text", str s) ∷ [])

abbrev message : String → List Json → Message
message role l = record { role = role; content = l }

-- An empty message between two of one role, and a result behind a text.
abbrev raw : List Message
raw =
    message "user" (said "a" ∷ [])
    ∷ message "assistant" []
    ∷ message "user" (said "b" ∷ (typed "tool_result" ∷ []))
    ∷ message "assistant" (said "c" ∷ [])
    ∷ []

coalesced :
    coalesce raw
    ≡ message "user" (typed "tool_result" ∷ (said "a" ∷ (said "b" ∷ [])))
      ∷ message "assistant" (said "c" ∷ [])
      ∷ []
unfolding coalesce coalesce_from absorb merge_last arranged merged Json.get
coalesced = refl

coalesce-Clean_example : Clean (coalesce raw)
coalesce-Clean_example = coalesce-Clean raw

abbrev is_text : Json → Bool
is_text b = says "text" (get_in "type" b)

total-coalesce_example : total is_text (coalesce raw) ≡ 3
unfolding Json.get
total-coalesce_example = total-coalesce is_text raw

abbrev no_json : String → Option Json
no_json s = none

abbrev no_float : Json → Option String
no_float j = none

abbrev fresh : ℕ → String
fresh n = decimal n

abbrev request : Fields
request = fields (("model", str "glm") ∷ ("input", str "Hi") ∷ [])

abbrev body_of : Option Converted → Fields
body_of (some (messages_body c)) = c
body_of _ = end

abbrev body : Fields
body = body_of (responses_to_anthropic no_json no_float fresh request)

request_passes : responses_to_anthropic no_json no_float fresh request ≡ some (messages_body body)
unfolding responses_to_anthropic converted pieces_from instructions raw_msgs session_of put_choice
    coalesce coalesce_from absorb merge_last arranged merged append_blocks as_int sampling
    apply_reasoning_params complaint shape_complaint efforts written Json.get Json.put Json.remove
    Json.has is_truthy strip lower piece_of show blocks_from_message_content
request_passes = refl

responses_to_anthropic-CleanBody_example : CleanBody body
responses_to_anthropic-CleanBody_example =
    responses_to_anthropic-CleanBody no_json no_float fresh request body request_passes

item_texts-add_blocks_example :
    item_texts (add_blocks fresh 1 "r" (said "a" ∷ (typed "thinking" ∷ (said "b" ∷ []))) [])
    ≡ texts_of (said "a" ∷ (typed "thinking" ∷ (said "b" ∷ [])))
item_texts-add_blocks_example =
    item_texts-add_blocks fresh 1 "r" (said "a" ∷ (typed "thinking" ∷ (said "b" ∷ []))) []
