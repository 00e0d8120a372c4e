-- ===== src/Responses/Request/Sound.antt =====
-- app/responses_compat.py: the messages of the body that goes upstream are clean.
use mathlib.Core.Path.{subst}
use zcode2api.Prelude.{
  ℤ, ℕ, ◌≡◌, refl, sym, ap, ◌∙◌, String, Bool, true, false, Option, none, some, List, [], ◌∷◌, map,
  if◌then◌else◌,
}
use zcode2api.Prelude.Json
use zcode2api.Prelude.Json.{
  Json, Fields, null, bool, int, float, str, arr, obj, get, put, remove, array, is_truthy, or_json,
}
use zcode2api.Prelude.Number.{as_int}
use zcode2api.Chat.Effort.{Applied, applied, refused, apply_reasoning_params, written}
use zcode2api.Chat.Effort.Valid.{applied_body}
use zcode2api.Chat.Request.{
  Converted, messages_body, invalid, sampling, put_stream, put_system, put_tools, or_default,
  first_body, is_named,
}
use zcode2api.Chat.Request.Checked.{map-messages_body, bind_some}
use zcode2api.Responses.Messages.{Message, coalesce}
use zcode2api.Responses.Messages.Coalesced.{Clean}
use zcode2api.Responses.Messages.Loop.{coalesce-Clean}
use zcode2api.Responses.Request.{
  input_items, is_blank, instructions, raw_msgs, message_json, session_of, put_found, mapped_tools,
  put_choice, session_keys, asked_tokens, finished, converted, from_items, blank_input, blank_id,
  no_input, pieces_from, responses_to_anthropic,
}
use zcode2api.Responses.Request.Kept.{
  Same, SameSome, put_found_same, put_tools_same, put_choice_same, put_system_same, put_stream_same,
  written_same, sampling_same,
}

finished_same :
    (payload b c : Fields) (a : Applied)
    → a ≡ apply_reasoning_params payload b
    → finished payload a ≡ some (messages_body c)
    → Same b c
finished_same payload b c (refused m) e h = absurd (cc)
finished_same payload b c (applied d) e h =
    let w : d ≡ written payload b = (applied_body payload b d (sym e)).1 in
    let s = put_found (session_of payload session_keys) d in
    let t = put_tools (mapped_tools (get "tools" payload)) s in
    let hc : Same t c =
      subst (SameSome t) (map-messages_body (put_choice (get "tool_choice" payload) t) c h)
        (put_choice_same (get "tool_choice" payload) t) in
    hc
    ∙ put_tools_same (mapped_tools (get "tools" payload)) s
    ∙ put_found_same (session_of payload session_keys) d
    ∙ ap (get "messages") w
    ∙ written_same payload b

-- The body's messages are those of some clean list.
abbrev pub CleanBody : Fields → Type 0
CleanBody b = (l : List Message) × Clean l × (get "messages" b ≡ array (map message_json l))

first_messages :
    (payload : Fields) (l : List Json) (n : ℤ) → get "messages" (first_body payload l n) ≡ array l
unfolding Json.get
first_messages payload l n = refl

-- A refusal or an exception has no body.
abbrev CleanReply : Option Converted → Type 0
CleanReply (some (messages_body b)) = CleanBody b
CleanReply _ = Unit

if_reply :
    (x : Bool) (o p : Option Converted)
    → CleanReply o
    → CleanReply p
    → CleanReply (if x then o else p)
if_reply true o p ho hp = ho
if_reply false o p ho hp = hp

module _ (loads : String → Option Json) (to_float : Json → Option String) (fresh : ℕ → String) where
  converted-CleanBody :
      (payload c : Fields) (system : List String) (l : List Message)
      → Clean l
      → converted loads to_float fresh payload system l ≡ some (messages_body c)
      → CleanBody c
  unfolding converted
  converted-CleanBody payload c system [] k h = absurd (cc)
  converted-CleanBody payload c system (m ∷ l) k h =
      let n = bind_some (as_int (asked_tokens payload)) _ _ h in
      let start = first_body payload (map message_json (m ∷ l)) (or_default n.0) in
      let system_put = put_system system start in
      let sampled = sampling to_float payload system_put in
      let streamed = put_stream (get "stream" payload) sampled in
      let f : Same streamed c =
        finished_same payload streamed c (apply_reasoning_params payload streamed) refl n.1 in
      (
        m ∷ l,
        k,
        f
            ∙ put_stream_same (get "stream" payload) sampled
            ∙ sampling_same to_float payload system_put
            ∙ put_system_same system start
            ∙ first_messages payload (map message_json (m ∷ l)) (or_default n.0),
      )

  reply_of :
      (o : Option Converted)
      → ((c : Fields) → o ≡ some (messages_body c) → CleanBody c)
      → CleanReply o
  reply_of none h = tt
  reply_of (some (invalid m)) h = tt
  reply_of (some (messages_body c)) h = h c refl

  from_items_clean :
      (payload : Fields) (o : Option (List Json))
      → CleanReply (from_items loads to_float fresh payload o)
  from_items_clean payload none = tt
  from_items_clean payload (some l) =
      let raw = raw_msgs [] (pieces_from loads fresh 0 l) in
      let system = instructions (get "instructions" payload) (pieces_from loads fresh 0 l) in
      reply_of (converted loads to_float fresh payload system (coalesce raw))
        (λ c h. converted-CleanBody payload c system (coalesce raw) (coalesce-Clean raw) h)

  blank_clean : (payload : Fields) → CleanReply (some (blank_input loads to_float fresh payload))
  blank_clean payload =
      elim (is_truthy (get "previous_response_id" payload))
        as (λ b. CleanReply (some (if b then invalid blank_id else invalid no_input))) [
          | true ↦ tt
          | false ↦ tt
        ]

  responses_clean :
      (payload : Fields) → CleanReply (responses_to_anthropic loads to_float fresh payload)
  unfolding responses_to_anthropic
  responses_clean payload =
      if_reply (is_named (get "model" payload)) _ _
        (if_reply (is_blank (get "input" payload)) _ _ (blank_clean payload)
          (from_items_clean payload (input_items (get "input" payload))))
        tt

  -- A request of the responses protocol that is converted: the messages of the body that goes upstream
  -- alternate between the user and the assistant, none is empty, and the results of tools stand first in
  -- the messages of the user, whatever items the request holds.
  pub responses_to_anthropic-CleanBody :
      (payload c : Fields)
      → responses_to_anthropic loads to_float fresh payload ≡ some (messages_body c)
      → CleanBody c
  responses_to_anthropic-CleanBody payload c h = subst CleanReply h (responses_clean payload)
