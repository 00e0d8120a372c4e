-- ===== src/Responses/Stream/Serve.antt =====
-- app/routes/gateway.py: `_responses_stream_response`, the loop that passes the events of the upstream
-- through the converter. Lines that hold no object are left out of the events; each comes with the
-- identifier that a call without one would draw. The comment that opens the stream is left out.
pub mod Complete
pub mod Sequence
pub mod Closed
use zcode2api.Prelude.{
  String, Bool, true, false, Option, none, some, List, [], ◌∷◌, ◌++◌, if◌then◌else◌, concat, not,
  ◌&&◌,
}
use zcode2api.Prelude.Json.{Fields, get}
use zcode2api.Chat.{says}
use zcode2api.Responses.Stream.{Event, Converter, Op}
use zcode2api.Responses.Stream.Feed.{Reply, returns, raises, reply, done, fail, feed}

-- How the lines of the upstream end: the connection closes, or breaks with a text. A client that goes
-- away is another case: nothing is sent to it.
pub data Ending : Type 0 where
  closes : Ending
  breaks : String → Ending

-- What is recorded of the request.
pub data Verdict : Type 0 where
  streamed : Verdict
  upstream_failed : String → Verdict
  interrupted : String → Verdict

pub record Served : Type 0 where
  pub converter : Converter
  pub sent : List Event
  pub verdict : Verdict

abbrev pub stream_error : String
stream_error = "上游流式响应报错"

abbrev pub stream_incomplete : String
stream_incomplete = "上游流式响应未正常结束"

abbrev pub failing : Verdict → String → Converter → Served
failing verdict message c =
    let (d, es) = fail message "upstream_error" c in
    record { converter = d; sent = es; verdict = verdict }

unfoldable pub interrupt : String → Converter → Served
interrupt err = failing (interrupted err) (concat ("流传输中断: " ∷ err ∷ []))

unfoldable pub completed : Converter → Served
completed c = let (d, es) = done c in record { converter = d; sent = es; verdict = streamed }

-- The end of the lines; `is_events` says that the answer is an event stream.
unfoldable pub close_stream : Bool → Ending → Converter → Served
close_stream is_events closes c =
    if not c.finished && is_events
    then failing (upstream_failed stream_incomplete) stream_incomplete c
    else completed c
close_stream is_events (breaks err) c = interrupt err c

abbrev pub after : List Event → Served → Served
after es s = record s { sent = es ++ s.sent }

-- An exception in `feed` is caught as an interruption; `err` stands for its text.
abbrev pub continued : String → (Converter → Served) → Converter × Option (List Event) → Served
continued err rest (d, none) = interrupt err d
continued err rest (d, some es) = after es (if d.finished then completed d else rest d)

unfoldable pub serve : Bool → Ending → String → List (String × Fields) → Converter → Served
serve is_events ending err [] c = close_stream is_events ending c
serve is_events ending err ((id, evt) ∷ rest) c =
    let next : Served = continued err (serve is_events ending err rest) (reply (feed id evt) c) in
    if says "error" (get "type" evt)
    then failing (upstream_failed stream_error) stream_error c
    else next
