-- ===== src/Responses/Stream/Serve/Complete.antt =====
-- app/routes/gateway.py: whatever the upstream sends, the client's stream is ended.
use mathlib.Core.Path.{subst}
use zcode2api.Prelude.{
  ℕ, ◌≡◌, refl, sym, String, Bool, true, false, Option, some, List, [], ◌∷◌, if◌then◌else◌, not,
  ◌&&◌, inl, inr, All,
}
use zcode2api.Prelude.Json.{Fields, get}
use zcode2api.Chat.{says}
use zcode2api.Responses.Stream.{Event, Converter, create}
use zcode2api.Responses.Stream.Phase.{Phase, fresh, ended, Runs, stays, Runs-append}
use zcode2api.Responses.Stream.Feed.{Reply, returns, raises, reply, feed}
use zcode2api.Responses.Stream.Feed.Simulates.{Live, unstarted}
use zcode2api.Responses.Stream.Feed.Ends.{
  Stands, done-Runs, fail-Runs, done_finished, fail_finished, done_again, Live-unfinished,
}
use zcode2api.Responses.Stream.Feed.Replies.{feed-Runs}
use zcode2api.Responses.Stream.Serve.{
  Ending, closes, breaks, upstream_failed, stream_incomplete, stream_error, Served, failing,
  interrupt, completed, close_stream, after, continued, serve,
}

-- `feed` raises on none of the events.
abbrev pub Returns : Reply → Type 0
Returns (returns op) = Unit
Returns (raises op) = ⊥

abbrev Whole : Phase → Served → Type 0
Whole p s = Runs p s.sent ended × (s.converter.finished ≡ true)

close_stream-Whole :
    (is_events : Bool) (ending : Ending) (c : Converter) (p : Phase)
    → Live c p
    → Whole p (close_stream is_events ending c)
unfolding close_stream interrupt completed
close_stream-Whole is_events closes c p h =
    elim (not c.finished && is_events)
      as (λ b. Whole p (
        if b
        then failing (upstream_failed stream_incomplete) stream_incomplete c
        else completed c)) [
          | true ↦ (fail-Runs _ _ c p h, fail_finished _ _ c)
          | false ↦ (done-Runs c p h, done_finished c)
        ]
close_stream-Whole is_events (breaks err) c p h = (fail-Runs _ _ c p h, fail_finished _ _ c)

after-Whole :
    (es : List Event) (p q : Phase) (s : Served) → Runs p es q → Whole q s → Whole p (after es s)
after-Whole es p q s h w = (Runs-append es s.sent h w.0, w.1)

-- A stream that has ended gets nothing more.
completed_again : (d : Converter) → d.finished ≡ true → Whole ended (completed d)
unfolding completed
completed_again d e =
    (subst (λ x. Runs ended x.1 ended) (sym (done_again d e)) stays, done_finished d)

goes_on :
    (rest : Converter → Served) (d : Converter) (q : Phase)
    → Stands d q
    → (Live d q → Whole q (rest d))
    → Whole q (if d.finished then completed d else rest d)
goes_on rest d q (inl l) go =
    subst (λ b. Whole q (if b then completed d else rest d)) (sym (Live-unfinished d q l)) (go l)
goes_on rest d q (inr (e, at)) go =
    subst (λ b. Whole q (if b then completed d else rest d)) (sym e)
      (subst (λ r. Whole r (completed d)) (sym at) (completed_again d e))

continued-Whole :
    (err : String) (rest : Converter → Served) (c : Converter) (p : Phase) (r : Reply)
    → Returns r
    → ((d : Converter) (es : List Event)
        → reply r c ≡ (d, some es)
        → (q : Phase) × Runs p es q × Stands d q)
    → ((d : Converter) (q : Phase) → Live d q → Whole q (rest d))
    → Whole p (continued err rest (reply r c))
continued-Whole err rest c p (raises op) h run go = absurd h
continued-Whole err rest c p (returns op) h run go =
    let d : Converter = (op c).0 in
    let r : (q : Phase) × Runs p (op c).1 q × Stands d q = run d (op c).1 refl in
    after-Whole (op c).1 p r.0 (if d.finished then completed d else rest d) r.1
      (goes_on rest d r.0 r.2 (go d r.0))

serve-Whole :
    (is_events : Bool) (ending : Ending) (err : String) (events : List (String × Fields))
    (c : Converter) (p : Phase)
    → All (λ e. Returns (feed e.0 e.1)) events
    → Live c p
    → Whole p (serve is_events ending err events c)
unfolding serve
serve-Whole is_events ending err [] c p h l = close_stream-Whole is_events ending c p l
serve-Whole is_events ending err ((id, evt) ∷ rest) c p h l =
    let next : Served = continued err (serve is_events ending err rest) (reply (feed id evt) c) in
    let go : Whole p next =
      continued-Whole err (serve is_events ending err rest) c p (feed id evt) h.0
        (λ d es e. feed-Runs id evt c d es p l e)
        (λ d q m. serve-Whole is_events ending err rest d q h.1 m) in
    elim (says "error" (get "type" evt))
      as (λ b.
        Whole p (if b then failing (upstream_failed stream_error) stream_error c else next)) [
          | true ↦ (fail-Runs stream_error _ c p l, fail_finished stream_error _ c)
          | false ↦ go
        ]

-- Whatever events an upstream sends to a new converter, as long as `feed` raises on none of them, and
-- however its lines end: what is sent to the client is one whole run of the response protocol, from the
-- first event to one event that ends it, which is the last; in it every item that is added is done,
-- with the text of its pieces put together, and the last event lists the items that are done.
pub serve-Runs :
    (is_events : Bool) (ending : Ending) (err : String) (events : List (String × Fields))
    (model : String) (effort : Option String) (response_id : String) (now : ℕ)
    → All (λ e. Returns (feed e.0 e.1)) events
    → Runs fresh
        (serve is_events ending err events (create model effort response_id now)).sent
        ended
serve-Runs is_events ending err events model effort response_id now h =
    (serve-Whole is_events ending err events (create model effort response_id now) fresh h
      (unstarted refl refl refl refl)).0
