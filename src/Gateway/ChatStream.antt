-- ===== src/Gateway/ChatStream.antt =====
-- app/routes/gateway.py: `_openai_stream_response`, the loop that passes the events of the upstream through
-- the converter of the chat protocol. Lines that hold no object are left out of the events, as is the
-- comment that opens the stream. `relay` is one round of the loop.
pub mod Told
use zcode2api.Prelude.{
  String, Bool, true, false, Option, none, some, List, [], ◌∷◌, ◌++◌, if◌then◌else◌, concat, not,
  ◌&&◌, ◌||◌, map,
}
use zcode2api.Prelude.Dumps.{dumps, spaced}
use zcode2api.Prelude.Json
use zcode2api.Prelude.Json.{Json, Fields, str, get, object}
use zcode2api.Chat.{says}
use zcode2api.Chat.Stream.{Converter, Chunk, Fed, chunk_line, relay}
use zcode2api.Responses.Stream.Serve.{
  Ending, closes, breaks, Verdict, streamed, upstream_failed, interrupted, stream_error,
  stream_incomplete,
}

-- What is sent to the client.
pub data Line : Type 0 where
  chunk : Chunk → Line
  error : String → Line
  done : Line

-- The text of a line. The text of an error is one of two constants.
unfoldable pub line_text : Line → String
unfolding chunk_line
line_text (chunk c) = chunk_line c
line_text (error message) = concat (
    "data: "
    ∷ dumps (record spaced { ensure_ascii = true })
        (object
          (("error", object (("type", str "upstream_error") ∷ ("message", str message) ∷ [])) ∷ []))
    ∷ "\n\n"
    ∷ [])
line_text done = "data: [DONE]\n\n"

pub record Served : Type 0 where
  pub converter : Converter
  pub sent : List Line
  pub verdict : Verdict

abbrev pub failing : String → Converter → Served
failing message c = record {
  converter = c;
  sent = error message ∷ [];
  verdict = upstream_failed message;
}

-- An interruption is recorded and told to nobody.
abbrev pub interrupt : String → Converter → Served
interrupt err c = record { converter = c; sent = []; verdict = interrupted err }

-- The end of the lines; `is_events` says that the answer is an event stream.
unfoldable pub close_stream : Bool → Ending → Bool → Converter → Served
close_stream is_events closes completed c =
    if not completed && is_events
    then failing stream_incomplete c
    else record { converter = c; sent = done ∷ []; verdict = streamed }
close_stream is_events (breaks err) completed c = interrupt err c

abbrev pub after : List Chunk → Served → Served
after cs s = record s { sent = map chunk cs ++ s.sent }

abbrev pub is_stop : Fields → Bool
is_stop evt = says "message_stop" (get "type" evt)

-- An exception in `feed` is caught as an interruption; `err` stands for its text.
abbrev pub continued : String → (Converter → Served) → Converter → Fed → Served
continued err rest c none = interrupt err c
continued err rest c (some (d, cs)) = after cs (rest d)

unfoldable pub serve : Bool → Ending → String → List Fields → Bool → Converter → Served
serve is_events ending err [] completed c = close_stream is_events ending completed c
serve is_events ending err (evt ∷ rest) completed c =
    let next : Served =
      continued err (serve is_events ending err rest (completed || is_stop evt)) c (relay evt c) in
    if says "error" (get "type" evt) then failing stream_error c else next
