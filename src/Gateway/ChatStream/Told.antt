-- ===== src/Gateway/ChatStream/Told.antt =====
-- app/routes/gateway.py: a client of a chat stream is told how it ended.
use mathlib.Core.Path.{subst}
use zcode2api.Prelude.{
  ◌≡◌, refl, sym, ap, ◌∙◌, String, Bool, true, false, none, some, List, [], ◌∷◌, ◌++◌,
  if◌then◌else◌, ◌||◌, map, any,
}
use mathlib.Core.List.{append_assoc}
use zcode2api.Prelude.Json.{Fields, get}
use zcode2api.Chat.{says}
use zcode2api.Chat.Stream.{Converter, Chunk, Fed, relay}
use zcode2api.Responses.Stream.Serve.{
  Ending, closes, breaks, Verdict, streamed, upstream_failed, interrupted, stream_error,
  stream_incomplete,
}
use zcode2api.Gateway.ChatStream.{
  Line, chunk, error, done, Served, failing, interrupt, close_stream, after, is_stop, continued,
  serve,
}

-- The line that follows the chunks.
abbrev pub last_lines : Verdict → List Line
last_lines streamed = done ∷ []
last_lines (upstream_failed message) = error message ∷ []
last_lines (interrupted err) = []

abbrev pub Told : Served → Type 0
Told s = (cs : List Chunk) × (s.sent ≡ map chunk cs ++ last_lines s.verdict)

-- A stream of events that counts as streamed was ended by the upstream.
abbrev pub Ended : Bool → Bool → Served → Type 0
Ended is_events stopped s = s.verdict ≡ streamed → is_events ≡ true → stopped ≡ true

abbrev Right : Bool → Bool → Served → Type 0
Right is_events stopped s = Told s × Ended is_events stopped s

failing-Right : (b t : Bool) (message : String) (c : Converter) → Right b t (failing message c)
failing-Right b t message c = (([], refl), λ e h. cc)

interrupt-Right : (b t : Bool) (err : String) (c : Converter) → Right b t (interrupt err c)
interrupt-Right b t err c = (([], refl), λ e h. cc)

close_stream-Right :
    (b : Bool) (ending : Ending) (completed : Bool) (c : Converter)
    → Right b completed (close_stream b ending completed c)
unfolding close_stream
close_stream-Right b (breaks err) completed c = interrupt-Right b completed err c
close_stream-Right true closes true c = (([], refl), λ e h. refl)
close_stream-Right true closes false c = failing-Right true false stream_incomplete c
close_stream-Right false closes true c = (([], refl), λ e h. refl)
close_stream-Right false closes false c = (([], refl), λ e h. cc)

map-append : (cs ds : List Chunk) → map chunk (cs ++ ds) ≡ map chunk cs ++ map chunk ds
map-append [] ds = refl
map-append (c ∷ cs) ds = ap (λ l. chunk c ∷ l) (map-append cs ds)

after-Right : (b t : Bool) (cs : List Chunk) (s : Served) → Right b t s → Right b t (after cs s)
after-Right b t cs s ((ds, e), h) = (
  (
    cs ++ ds,
    ap (λ l. map chunk cs ++ l) e
        ∙ sym (append_assoc (map chunk cs) (map chunk ds) (last_lines s.verdict))
        ∙ ap (λ l. l ++ last_lines s.verdict) (sym (map-append cs ds)),
  ),
  h,
)

continued-Right :
    (b t : Bool) (err : String) (rest : Converter → Served) (c : Converter) (o : Fed)
    → ((d : Converter) → Right b t (rest d))
    → Right b t (continued err rest c o)
continued-Right b t err rest c none h = interrupt-Right b t err c
continued-Right b t err rest c (some (d, cs)) h = after-Right b t cs (rest d) (h d)

if_Right :
    (b t x : Bool) (s u : Served) → Right b t s → Right b t u → Right b t (if x then s else u)
if_Right b t true s u hs hu = hs
if_Right b t false s u hs hu = hu

or_false : (a : Bool) → a ≡ (a || false)
or_false true = refl
or_false false = refl

or_assoc : (a b c : Bool) → ((a || b) || c) ≡ (a || (b || c))
or_assoc true b c = refl
or_assoc false b c = refl

serve-Right :
    (b : Bool) (ending : Ending) (err : String) (events : List Fields) (completed : Bool)
    (c : Converter)
    → Right b (completed || any is_stop events) (serve b ending err events completed c)
unfolding serve
serve-Right b ending err [] completed c =
    subst (λ t. Right b t (close_stream b ending completed c)) (or_false completed)
      (close_stream-Right b ending completed c)
serve-Right b ending err (evt ∷ rest) completed c =
    let t : Bool = completed || any is_stop (evt ∷ rest) in
    if_Right b t (says "error" (get "type" evt)) (failing stream_error c) _
      (failing-Right b t stream_error c)
      (continued-Right b t err _ c (relay evt c) (λ d.
        subst (λ t. Right b t (serve b ending err rest (completed || is_stop evt) d))
          (or_assoc completed (is_stop evt) (any is_stop rest))
          (serve-Right b ending err rest (completed || is_stop evt) d)))

-- Whatever the upstream sends to a chat client, and however its lines end: the client gets chunks, and
-- after them the end marker where the request is recorded as streamed, the error where the upstream
-- failed, and nothing where the stream was interrupted. An event stream is recorded as streamed only
-- after an event `message_stop`.
pub serve-Told :
    (is_events : Bool) (ending : Ending) (err : String) (events : List Fields) (c : Converter)
    → (let s : Served = serve is_events ending err events false c in
        Told s × Ended is_events (any is_stop events) s)
serve-Told is_events ending err events c = serve-Right is_events ending err events false c
