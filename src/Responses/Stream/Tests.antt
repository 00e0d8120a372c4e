-- ===== src/Responses/Stream/Tests.antt =====
-- Runs of the stream converter, and its theorems at a small stream.
use zcode2api.Prelude.{◌≡◌, refl, String, true, none, List, [], ◌∷◌, map, All, lower}
use zcode2api.Prelude.Json
use zcode2api.Prelude.Json.{Json, Fields, fields, object, str, int, is_truthy, show, decimal, get}
use zcode2api.Prelude.Number.{as_int}
use zcode2api.Chat.{part, response_model}
use zcode2api.Responses.Stream.{
  Event, Converter, create, emit, begin, ensure_started, close_text, done_item, close_block,
  close_active_block,
}
use zcode2api.Responses.Stream.Phase.{fresh, ended, Runs}
use zcode2api.Responses.Stream.Deltas.{
  announce, open_block, start_block, push, push_text, text_delta,
}
use zcode2api.Responses.Stream.Feed.{
  feed, message_start, content_block_delta, delta_op, message_delta, finish, final_response, done,
}
use zcode2api.Responses.Stream.Feed.Sequence.{Numbered}
use zcode2api.Responses.Stream.Serve.{Served, closes, breaks, serve, close_stream, completed}
use zcode2api.Responses.Stream.Serve.Complete.{Returns, serve-Runs}
use zcode2api.Responses.Stream.Serve.Sequence.{serve-Numbered}
use zcode2api.Responses.Stream.Serve.Closed.{serve_finished}
use zcode2api.Responses.Stream.Feed.Goes.{Ends}

abbrev event : String → List (String × Json) → String × Fields
event t l = ("call_0", fields (("type", str t) ∷ l))

abbrev delta : String → String × Fields
delta s =
    event "content_block_delta"
      (("delta", object (("type", str "text_delta") ∷ ("text", str s) ∷ [])) ∷ [])

-- A text in two pieces, without the start of its block.
abbrev events : List (String × Fields)
events =
    event "message_start" (("message", object (("id", str "m1") ∷ [])) ∷ [])
    ∷ delta "Hel"
    ∷ delta "lo"
    ∷ event "content_block_stop" []
    ∷ event "message_delta" (("delta", object (("stop_reason", str "end_turn") ∷ [])) ∷ [])
    ∷ event "message_stop" []
    ∷ []

abbrev new : Converter
new = create "glm" none "resp_0" 7

events_return : All (λ e. Returns (feed e.0 e.1)) events
unfolding feed message_start content_block_delta message_delta part is_truthy Json.get as_int
events_return = (tt, (tt, (tt, (tt, (tt, (tt, tt))))))

serve-Runs_example : Runs fresh (serve true closes "" events new).sent ended
serve-Runs_example = serve-Runs true closes "" events "glm" none "resp_0" 7 events_return

serve-Numbered_example :
    (let s : Served = serve true closes "" events new in Numbered 0 s.sent s.converter.seq)
serve-Numbered_example = serve-Numbered true closes "" events "glm" none "resp_0" 7 events_return

-- The lines break after the text, before the end of the answer.
abbrev broken : List (String × Fields)
broken = event "message_start" [] ∷ delta "Hel" ∷ []

serve_finished_example :
    Ends (serve true (breaks "reset") "" broken new).sent
    × ((serve true (breaks "reset") "" broken new).converter.finished ≡ true)
serve_finished_example = serve_finished true (breaks "reset") "" broken new refl

sent_types :
    map (λ (e : Event). e.event_type) (serve true closes "" events new).sent
    ≡ "response.created" ∷ "response.in_progress" ∷ "response.output_item.added"
      ∷ "response.content_part.added" ∷ "response.output_text.delta" ∷ "response.output_text.delta"
      ∷ "response.output_text.done" ∷ "response.content_part.done" ∷ "response.output_item.done"
      ∷ "response.completed" ∷ []
unfolding serve close_stream completed feed message_start content_block_delta delta_op message_delta
    part is_truthy Json.get as_int response_model show lower ensure_started begin emit text_delta
    start_block open_block announce decimal push push_text close_active_block close_block close_text
    done_item done finish final_response
sent_types = refl
