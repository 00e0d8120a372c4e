-- ===== src/Responses/Stream/Feed/Numbered.antt =====
-- app/responses_compat.py: every call of `feed`, `done` and `fail` numbers its events one after the other.
use zcode2api.Prelude.{
  ℕ, ◌≡◌, refl, String, true, false, Option, none, some, List, [], ◌∷◌, Bool, if◌then◌else◌,
}
use mathlib.Core.Path.{subst}
use zcode2api.Prelude.Json.{Json, Fields, str, get}
use zcode2api.Prelude.Number.{as_int}
use zcode2api.Chat.{part, says}
use zcode2api.Responses.Stream.{
  Op, Event, Kind, thinking, text, Block, Converter, change, looking, nothing, ◌andthen◌, emit,
  ensure_started, close_active_block,
}
use zcode2api.Responses.Stream.Deltas.{
  kind_of, start_block, push_thinking, push_text, push_arguments, with_block, on_thinking, on_text,
  on_tool, thinking_delta, text_delta, signature_delta, arguments_delta,
}
use zcode2api.Responses.Stream.Feed.{
  Reply, returns, raises, reply, chunk_op, message_start, content_block_start, delta_op,
  content_block_delta, message_delta, finish, done, done_type, final_response, failed_response,
  reading, named, with_input, with_cached, fail, feed,
}
use zcode2api.Responses.Stream.Feed.Sequence.{
  Numbered, Numbers, andthen-Numbers, ensure_started-Numbers, close_active_block-Numbers,
  start_block-Numbers, push-Numbers, with_block-Numbers, on_thinking-Numbers, on_text-Numbers,
  on_tool-Numbers, emit-Numbers,
}

if_Numbers : (b : Bool) (x y : Op) → Numbers x → Numbers y → Numbers (if b then x else y)
if_Numbers true x y hx hy = hx
if_Numbers false x y hx hy = hy

push_thinking-Numbers : (s : String) (b : Block) → Numbers (push_thinking s b)
unfolding push_thinking
push_thinking-Numbers s b = push-Numbers _ _ s b

push_text-Numbers : (s : String) (b : Block) → Numbers (push_text s b)
unfolding push_text
push_text-Numbers s b = push-Numbers _ _ s b

-- A block is opened for a piece, and takes it.
opening-Numbers :
    (k : Kind) (f : Block → Op)
    → ((b : Block) → Numbers (f b))
    → Numbers (start_block (some k) andthen looking λ c. with_block c.active_block f nothing)
opening-Numbers k f h =
    andthen-Numbers (start_block (some k)) (looking λ c. with_block c.active_block f nothing)
      (start_block-Numbers (some k))
      (λ d. with_block-Numbers d.active_block f nothing h (λ e. refl) d)

thinking_delta-Numbers : (s : String) → Numbers (thinking_delta s)
unfolding thinking_delta
thinking_delta-Numbers s c =
    let f = push_thinking s in
    let g : Op =
      start_block (some (thinking "")) andthen looking λ d. with_block d.active_block f nothing in
    let hg : Numbers g = opening-Numbers (thinking "") f (push_thinking-Numbers s) in
    with_block-Numbers c.active_block (λ b. on_thinking f g b b.kind) g
      (λ b. on_thinking-Numbers f g b b.kind (push_thinking-Numbers s b) hg) hg c

text_delta-Numbers : (s : String) → Numbers (text_delta s)
unfolding text_delta
text_delta-Numbers s c =
    let f = push_text s in
    let g : Op = start_block (some text) andthen looking λ d. with_block d.active_block f nothing in
    let hg : Numbers g = opening-Numbers text f (push_text-Numbers s) in
    with_block-Numbers c.active_block (λ b. on_text f g b b.kind) g
      (λ b. on_text-Numbers f g b b.kind (push_text-Numbers s b) hg) hg c

signature_delta-Numbers : (s : String) → Numbers (signature_delta s)
unfolding signature_delta
signature_delta-Numbers s c = refl

push_arguments-Numbers : (id s : String) (b : Block) → Numbers (push_arguments id s b)
unfolding push_arguments
push_arguments-Numbers id s b = push-Numbers _ _ s b

arguments_delta-Numbers : (s : String) → Numbers (arguments_delta s)
unfolding arguments_delta
arguments_delta-Numbers s c =
    let f : String → Block → Op = λ id. push_arguments id s in
    with_block-Numbers c.active_block (λ b. on_tool f nothing b b.kind) nothing
      (λ b. on_tool-Numbers f nothing b b.kind (λ id. push_arguments-Numbers id s b) (λ d. refl))
      (λ d. refl) c

chunk_op-Numbers :
    (f : String → Op) (j : Json) → ((s : String) → Numbers (f s)) → Numbers (chunk_op f j)
chunk_op-Numbers f (str s) h = h s
chunk_op-Numbers f _ h = λ c. refl

delta_op-Numbers : (delta : Fields) → Numbers (delta_op delta)
unfolding delta_op
delta_op-Numbers d =
    if_Numbers (says "thinking_delta" (get "type" d)) _ _
      (chunk_op-Numbers thinking_delta _ thinking_delta-Numbers)
      (if_Numbers (says "signature_delta" (get "type" d)) _ _
        (chunk_op-Numbers signature_delta _ signature_delta-Numbers)
        (if_Numbers (says "text_delta" (get "type" d)) _ _
          (chunk_op-Numbers text_delta _ text_delta-Numbers)
          (if_Numbers (says "input_json_delta" (get "type" d)) _ _
            (chunk_op-Numbers arguments_delta _ arguments_delta-Numbers) (λ c. refl))))

finish-Numbers : (t : Converter → String) (r : Converter → Json) → Numbers (finish t r)
unfolding finish start_block
finish-Numbers t r c =
    let last : Op =
      change (λ d. record d { finished = true })
      andthen looking λ d. emit (t d) (("response", r d) ∷ []) in
    if_Numbers c.finished nothing ((ensure_started andthen close_active_block) andthen last)
      (λ d. refl)
      (andthen-Numbers (ensure_started andthen close_active_block) last (start_block-Numbers none)
        (λ d. emit-Numbers _ _ (record d { finished = true })))
      c

pub done-Numbers : Numbers done
unfolding done
done-Numbers = finish-Numbers done_type final_response

pub fail-Numbers : (message code : String) → Numbers (fail message code)
unfolding fail
fail-Numbers message code = finish-Numbers (λ c. "response.failed") (failed_response message code)

abbrev ReplyNumbers : Reply → Type 0
ReplyNumbers (returns op) = Numbers op
ReplyNumbers (raises op) = Unit

reading_numbers {ℓ} :
    {A : Type ℓ} (o : Option A) (before : Op) (f : A → Reply)
    → ((a : A) → ReplyNumbers (f a))
    → ReplyNumbers (reading o before f)
reading_numbers none before f h = tt
reading_numbers (some a) before f h = h a

if_reply :
    (b : Bool) (x y : Reply) → ReplyNumbers x → ReplyNumbers y → ReplyNumbers (if b then x else y)
if_reply true x y hx hy = hx
if_reply false x y hx hy = hy

message_start_numbers : (evt : Fields) → ReplyNumbers (message_start evt)
unfolding message_start
message_start_numbers evt = reading_numbers (part "message" evt) _ _ λ msg.
    reading_numbers (part "usage" msg) _ _ λ u.
      reading_numbers (as_int (get "input_tokens" u)) _ _ λ n.
        reading_numbers (as_int (get "cache_read_input_tokens" u)) _ _
          λ k c. ensure_started-Numbers (with_cached k (with_input n (named msg c)))

content_block_start_numbers :
    (fresh : String) (evt : Fields) → ReplyNumbers (content_block_start fresh evt)
unfolding content_block_start
content_block_start_numbers fresh evt =
    reading_numbers (part "content_block" evt) _ _ λ cb. start_block-Numbers (kind_of fresh cb)

content_block_delta_numbers : (evt : Fields) → ReplyNumbers (content_block_delta evt)
unfolding content_block_delta
content_block_delta_numbers evt = reading_numbers (part "delta" evt) _ _ λ delta.
    andthen-Numbers ensure_started (delta_op delta) ensure_started-Numbers (delta_op-Numbers delta)

message_delta_numbers : (evt : Fields) → ReplyNumbers (message_delta evt)
unfolding message_delta
message_delta_numbers evt = reading_numbers (part "delta" evt) _ _ λ delta.
    reading_numbers (part "usage" evt) _ _
      λ u. reading_numbers (as_int (get "output_tokens" u)) _ _ λ n c. refl

feed_numbers : (fresh : String) (evt : Fields) → ReplyNumbers (feed fresh evt)
unfolding feed
feed_numbers fresh evt =
    if_reply (says "message_start" (get "type" evt)) _ _ (message_start_numbers evt) (
      if_reply (says "content_block_start" (get "type" evt)) _ _
        (content_block_start_numbers fresh evt)
        (if_reply (says "content_block_delta" (get "type" evt)) _ _
          (content_block_delta_numbers evt)
          (if_reply (says "content_block_stop" (get "type" evt)) _ _ close_active_block-Numbers (
            if_reply (says "message_delta" (get "type" evt)) _ _ (message_delta_numbers evt)
              (if_reply (says "message_stop" (get "type" evt)) _ _ done-Numbers (λ c. refl))))))

abbrev Fits : ℕ → Converter × Option (List Event) → Type 0
Fits n (d, none) = Unit
Fits n (d, some es) = Numbered n es d.seq

returned :
    (r : Reply) (c d : Converter) (es : List Event)
    → ReplyNumbers r
    → reply r c ≡ (d, some es)
    → Numbered c.seq es d.seq
returned (returns op) c d es h e = subst (Fits c.seq) e (h c)
returned (raises op) c d es h e = cc

-- The events that a call of `feed` returns are numbered one after the other, from the number of the
-- last event before it to the number that the converter keeps.
pub feed-Numbered :
    (fresh : String) (evt : Fields) (c d : Converter) (es : List Event)
    → reply (feed fresh evt) c ≡ (d, some es)
    → Numbered c.seq es d.seq
feed-Numbered fresh evt c d es e = returned (feed fresh evt) c d es (feed_numbers fresh evt) e
