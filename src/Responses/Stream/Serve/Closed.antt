-- ===== src/Responses/Stream/Serve/Closed.antt =====
-- app/routes/gateway.py: the one event that ends the client's stream.
use mathlib.Core.Path.{subst}
use zcode2api.Prelude.{
  ◌≡◌, sym, String, Bool, true, false, List, [], ◌∷◌, ◌++◌, ap, if◌then◌else◌, not, ◌&&◌, inl, inr,
}
use zcode2api.Prelude.Json.{Fields, get}
use zcode2api.Chat.{says}
use zcode2api.Responses.Stream.{Event, Converter}
use zcode2api.Responses.Stream.Feed.{Reply, returns, raises, reply, feed}
use zcode2api.Responses.Stream.Feed.Ends.{done_finished, fail_finished, done_again}
use zcode2api.Responses.Stream.Feed.Goes.{
  Ends, Ends-append, Going, ReplyGoes, feed_goes, done-Ends, fail-Ends,
}
use zcode2api.Responses.Stream.Serve.{
  Ending, closes, breaks, upstream_failed, stream_incomplete, stream_error, Served, failing,
  interrupt, completed, close_stream, after, continued, serve,
}

abbrev Closed : Served → Type 0
Closed s = Ends s.sent × (s.converter.finished ≡ true)

if_Closed : (b : Bool) (x y : Served) → Closed x → Closed y → Closed (if b then x else y)
if_Closed true x y hx hy = hx
if_Closed false x y hx hy = hy

completed-Closed : (c : Converter) → c.finished ≡ false → Closed (completed c)
unfolding completed
completed-Closed c e = (done-Ends c e, done_finished c)

interrupt-Closed : (err : String) (c : Converter) → c.finished ≡ false → Closed (interrupt err c)
unfolding interrupt
interrupt-Closed err c e = (fail-Ends _ _ c e, fail_finished _ _ c)

failing-Closed :
    (m : String) (c : Converter) → c.finished ≡ false → Closed (failing (upstream_failed m) m c)
failing-Closed m c e = (fail-Ends m _ c e, fail_finished m _ c)

close_stream-Closed :
    (is_events : Bool) (ending : Ending) (c : Converter)
    → c.finished ≡ false
    → Closed (close_stream is_events ending c)
unfolding close_stream
close_stream-Closed is_events closes c e =
    if_Closed (not c.finished && is_events) _ _ (failing-Closed stream_incomplete c e)
      (completed-Closed c e)
close_stream-Closed is_events (breaks err) c e = interrupt-Closed err c e

Ends-nothing : (es : List Event) → Ends es → Ends (es ++ [])
Ends-nothing [] h = absurd h
Ends-nothing (e ∷ es) (inl h) = inl (h.0, ap (λ l. l ++ []) h.1)
Ends-nothing (e ∷ es) (inr h) = inr (h.0, Ends-nothing es h.1)

-- After the end of the stream `done` emits nothing more.
ended-Closed :
    (es : List Event) (d : Converter)
    → Ends es
    → d.finished ≡ true
    → Closed (after es (completed d))
unfolding completed
ended-Closed es d h e =
    (subst (λ x. Ends (es ++ x.1)) (sym (done_again d e)) (Ends-nothing es h), done_finished d)

goes_on :
    (rest : Converter → Served) (d : Converter) (es : List Event)
    → Going (d, es)
    → ((d : Converter) → d.finished ≡ false → Closed (rest d))
    → Closed (after es (if d.finished then completed d else rest d))
goes_on rest d es (inl (quiet, e)) go =
    subst (λ b. Closed (after es (if b then completed d else rest d))) (sym e)
      (Ends-append es (rest d).sent quiet (go d e).0, (go d e).1)
goes_on rest d es (inr (ends, e)) go =
    subst (λ b. Closed (after es (if b then completed d else rest d))) (sym e)
      (ended-Closed es d ends e)

continued-Closed :
    (err : String) (rest : Converter → Served) (c : Converter) (r : Reply)
    → c.finished ≡ false
    → ReplyGoes r
    → ((d : Converter) → d.finished ≡ false → Closed (rest d))
    → Closed (continued err rest (reply r c))
continued-Closed err rest c (raises op) e h go = interrupt-Closed err (op c).0 (h c e)
continued-Closed err rest c (returns op) e h go = goes_on rest (op c).0 (op c).1 (h c e) go

-- Whatever events the upstream sends to a converter that is not finished, those on which `feed` raises
-- included, and however its lines end: exactly one of the events that the client gets is
-- `response.completed`, `response.incomplete` or `response.failed`, it is the last one, and the converter is
-- finished when the client's stream is closed.
pub serve_finished :
    (is_events : Bool) (ending : Ending) (err : String) (events : List (String × Fields))
    (c : Converter)
    → c.finished ≡ false
    → Ends (serve is_events ending err events c).sent
      × ((serve is_events ending err events c).converter.finished ≡ true)
unfolding serve
serve_finished is_events ending err [] c e = close_stream-Closed is_events ending c e
serve_finished is_events ending err ((id, evt) ∷ rest) c e =
    if_Closed (says "error" (get "type" evt))
      (failing (upstream_failed stream_error) stream_error c)
      (continued err (serve is_events ending err rest) (reply (feed id evt) c))
      (failing-Closed stream_error c e)
      (continued-Closed err (serve is_events ending err rest) c (feed id evt) e (feed_goes id evt)
        (λ d. serve_finished is_events ending err rest d))
