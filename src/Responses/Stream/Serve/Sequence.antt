-- ===== src/Responses/Stream/Serve/Sequence.antt =====
-- app/routes/gateway.py: the client's events are numbered from one on.
use zcode2api.Prelude.{
  ℕ, ◌≡◌, refl, String, Bool, true, false, Option, some, List, [], ◌∷◌, if◌then◌else◌, not, ◌&&◌,
  All,
}
use zcode2api.Prelude.Json.{Fields, get}
use zcode2api.Chat.{says}
use zcode2api.Responses.Stream.{Event, Converter, create}
use zcode2api.Responses.Stream.Feed.{Reply, returns, raises, reply, feed}
use zcode2api.Responses.Stream.Feed.Sequence.{Numbered, Numbered-append}
use zcode2api.Responses.Stream.Feed.Numbered.{feed-Numbered, done-Numbers, fail-Numbers}
use zcode2api.Responses.Stream.Serve.{
  Ending, closes, breaks, upstream_failed, stream_incomplete, stream_error, Served, failing,
  interrupt, completed, close_stream, continued, serve,
}
use zcode2api.Responses.Stream.Serve.Complete.{Returns}

abbrev Counted : ℕ → Served → Type 0
Counted n s = Numbered n s.sent s.converter.seq

if_Counted :
    (n : ℕ) (b : Bool) (x y : Served) → Counted n x → Counted n y → Counted n (if b then x else y)
if_Counted n true x y hx hy = hx
if_Counted n false x y hx hy = hy

completed-Counted : (c : Converter) → Counted c.seq (completed c)
unfolding completed
completed-Counted c = done-Numbers c

close_stream-Counted :
    (is_events : Bool) (ending : Ending) (c : Converter)
    → Counted c.seq (close_stream is_events ending c)
unfolding close_stream interrupt
close_stream-Counted is_events closes c =
    if_Counted c.seq (not c.finished && is_events) _ _ (fail-Numbers stream_incomplete _ c)
      (completed-Counted c)
close_stream-Counted is_events (breaks err) c = fail-Numbers _ _ c

continued-Counted :
    (err : String) (rest : Converter → Served) (c : Converter) (r : Reply)
    → Returns r
    → ((d : Converter) (es : List Event) → reply r c ≡ (d, some es) → Numbered c.seq es d.seq)
    → ((d : Converter) → Counted d.seq (rest d))
    → Counted c.seq (continued err rest (reply r c))
continued-Counted err rest c (raises op) h run go = absurd h
continued-Counted err rest c (returns op) h run go =
    let d : Converter = (op c).0 in
    let more : Served = if d.finished then completed d else rest d in
    Numbered-append c.seq d.seq more.converter.seq (op c).1 more.sent (run d (op c).1 refl)
      (if_Counted d.seq d.finished (completed d) (rest d) (completed-Counted d) (go d))

serve-Counted :
    (is_events : Bool) (ending : Ending) (err : String) (events : List (String × Fields))
    (c : Converter)
    → All (λ e. Returns (feed e.0 e.1)) events
    → Counted c.seq (serve is_events ending err events c)
unfolding serve
serve-Counted is_events ending err [] c h = close_stream-Counted is_events ending c
serve-Counted is_events ending err ((id, evt) ∷ rest) c h =
    let next : Served = continued err (serve is_events ending err rest) (reply (feed id evt) c) in
    if_Counted c.seq (says "error" (get "type" evt))
      (failing (upstream_failed stream_error) stream_error c) next (fail-Numbers stream_error _ c)
      (continued-Counted err (serve is_events ending err rest) c (feed id evt) h.0
        (feed-Numbered id evt c) (λ d. serve-Counted is_events ending err rest d h.1))

-- Where `feed` raises on none of the events, the events that a client gets are numbered from one on
-- without a gap, to the number that the converter ends with.
pub serve-Numbered :
    (is_events : Bool) (ending : Ending) (err : String) (events : List (String × Fields))
    (model : String) (effort : Option String) (response_id : String) (now : ℕ)
    → All (λ e. Returns (feed e.0 e.1)) events
    → (let s : Served = serve is_events ending err events (create model effort response_id now) in
        Numbered 0 s.sent s.converter.seq)
serve-Numbered is_events ending err events model effort response_id now h =
    serve-Counted is_events ending err events (create model effort response_id now) h
