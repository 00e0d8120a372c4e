-- ===== src/Responses/Stream/Feed/Quiet.antt =====
-- app/responses_compat.py: what the operations of the converter emit goes on with the stream.
use zcode2api.Prelude.{
  ℕ, ◌≡◌, refl, ◌∙◌, String, true, false, Option, none, some, List, [], Bool, ◌||◌, if◌then◌else◌,
  concat, All, All-append, str_eq,
}
use zcode2api.Prelude.Json.{Json, Fields, str, get}
use zcode2api.Chat.{says}
use zcode2api.Responses.Stream.{
  Op, Event, Payload, Kind, thinking, text, tool_use, Block, Converter, looking, nothing, ◌andthen◌,
  emit, begin, ensure_started, close_text, close_block, close_active_block,
}
use zcode2api.Responses.Stream.Deltas.{
  announce, open_block, start_block, push, push_thinking, push_text, push_arguments, with_block,
  on_thinking, on_text, on_tool, thinking_delta, text_delta, signature_delta, arguments_delta,
}
use zcode2api.Responses.Stream.Feed.{chunk_op, delta_op}

abbrev pub ends_with : String → Bool
ends_with t =
    str_eq t "response.completed" || str_eq t "response.incomplete" || str_eq t "response.failed"

-- An event that ends the stream of a response.
abbrev pub is_last : Event → Bool
is_last e = ends_with e.event_type

abbrev pub NotLast : Event → Type 0
NotLast e = is_last e ≡ false

-- What an operation emits goes on, and the converter is finished only if it was.
abbrev pub Silent : Converter → Converter × List Event → Type 0
Silent c r = All NotLast r.1 × (r.0.finished ≡ c.finished)

abbrev pub Quiet : Op → Type 0
Quiet op = (c : Converter) → Silent c (op c)

pub andthen-Quiet : (m k : Op) → Quiet m → Quiet k → Quiet (m andthen k)
andthen-Quiet m k hm hk c =
    (All-append NotLast (m c).1 (k (m c).0).1 (hm c).0 (hk (m c).0).0, (hk (m c).0).1 ∙ (hm c).1)

emit-Quiet :
    (event_type : String) (p : Payload) → ends_with event_type ≡ false → Quiet (emit event_type p)
unfolding emit
emit-Quiet event_type p h c = ((h, tt), refl)

begin-Quiet : Quiet begin
unfolding begin emit
begin-Quiet c = ((refl, (refl, tt)), refl)

pub ensure_started-Quiet : Quiet ensure_started
unfolding ensure_started
ensure_started-Quiet c =
    elim c.started
      as (λ b. (let r : Converter × List Event = if b then (c, []) else begin c in Silent c r)) [
        | true ↦ (tt, refl)
        | false ↦ begin-Quiet c
      ]

close_text-Quiet : (b : Block) (k : Kind) (s : String) → Quiet (close_text b k s)
unfolding close_text emit
close_text-Quiet b (thinking _) s c = ((refl, (refl, tt)), refl)
close_text-Quiet b text s c = ((refl, (refl, tt)), refl)
close_text-Quiet b (tool_use _ _) s c = ((refl, tt), refl)

close_block-Quiet : (b : Block) → Quiet (close_block b)
unfolding close_block emit
close_block-Quiet b c =
    let d : Converter = record c { active_block = none } in
    let q = close_text-Quiet b b.kind (concat b.buffer) d in
    (All-append NotLast (close_text b b.kind (concat b.buffer) d).1 _ q.0 (refl, tt), q.1)

pub close_active_block-Quiet : Quiet close_active_block
unfolding close_active_block
close_active_block-Quiet c =
    elim c.active_block
      as (λ o.
        (let r : Converter × List Event = elim o [ none ↦ (c, []) | some b ↦ close_block b c ] in
          Silent c r)) [ none ↦ (tt, refl) | some b ↦ close_block-Quiet b c ]

announce-Quiet : (k : Kind) (id : String) (n : ℕ) → Quiet (announce k id n)
unfolding announce emit
announce-Quiet (thinking _) id n c = ((refl, (refl, tt)), refl)
announce-Quiet text id n c = ((refl, (refl, tt)), refl)
announce-Quiet (tool_use _ _) id n c = ((refl, tt), refl)

open_block-Quiet : (k : Kind) → Quiet (open_block k)
unfolding open_block
open_block-Quiet k c = announce-Quiet k _ _ _

pub closed-Quiet : Quiet (ensure_started andthen close_active_block)
closed-Quiet =
    andthen-Quiet ensure_started close_active_block ensure_started-Quiet close_active_block-Quiet

pub start_block-Quiet : (o : Option Kind) → Quiet (start_block o)
unfolding start_block
start_block-Quiet none = closed-Quiet
start_block-Quiet (some k) =
    andthen-Quiet (ensure_started andthen close_active_block) (open_block k) closed-Quiet
      (open_block-Quiet k)

push-Quiet :
    (t : String) (p : Payload) (chunk : String) (b : Block)
    → ends_with t ≡ false
    → Quiet (push t p chunk b)
unfolding push emit
push-Quiet t p chunk b h c = ((h, tt), refl)

with_block-Quiet :
    (o : Option Block) (f : Block → Op) (g : Op)
    → ((b : Block) → Quiet (f b))
    → Quiet g
    → Quiet (with_block o f g)
with_block-Quiet none f g hf hg = hg
with_block-Quiet (some b) f g hf hg = hf b

on_thinking-Quiet :
    (f : Block → Op) (g : Op) (b : Block) (k : Kind)
    → Quiet (f b)
    → Quiet g
    → Quiet (on_thinking f g b k)
on_thinking-Quiet f g b (thinking _) hf hg = hf
on_thinking-Quiet f g b _ hf hg = hg

on_text-Quiet :
    (f : Block → Op) (g : Op) (b : Block) (k : Kind)
    → Quiet (f b)
    → Quiet g
    → Quiet (on_text f g b k)
on_text-Quiet f g b text hf hg = hf
on_text-Quiet f g b _ hf hg = hg

on_tool-Quiet :
    (f : String → Block → Op) (g : Op) (b : Block) (k : Kind)
    → ((id : String) → Quiet (f id b))
    → Quiet g
    → Quiet (on_tool f g b k)
on_tool-Quiet f g b (tool_use id _) hf hg = hf id
on_tool-Quiet f g b _ hf hg = hg

if_Quiet : (b : Bool) (x y : Op) → Quiet x → Quiet y → Quiet (if b then x else y)
if_Quiet true x y hx hy = hx
if_Quiet false x y hx hy = hy

push_thinking-Quiet : (s : String) (b : Block) → Quiet (push_thinking s b)
unfolding push_thinking
push_thinking-Quiet s b = push-Quiet _ _ s b refl

push_text-Quiet : (s : String) (b : Block) → Quiet (push_text s b)
unfolding push_text
push_text-Quiet s b = push-Quiet _ _ s b refl

-- A block is opened for a piece, and takes it.
opening-Quiet :
    (k : Kind) (f : Block → Op)
    → ((b : Block) → Quiet (f b))
    → Quiet (start_block (some k) andthen looking λ c. with_block c.active_block f nothing)
opening-Quiet k f h =
    andthen-Quiet (start_block (some k)) (looking λ c. with_block c.active_block f nothing)
      (start_block-Quiet (some k))
      (λ d. with_block-Quiet d.active_block f nothing h (λ e. (tt, refl)) d)

thinking_delta-Quiet : (s : String) → Quiet (thinking_delta s)
unfolding thinking_delta
thinking_delta-Quiet s c =
    let f = push_thinking s in
    let g : Op =
      start_block (some (thinking "")) andthen looking λ d. with_block d.active_block f nothing in
    let hg : Quiet g = opening-Quiet (thinking "") f (push_thinking-Quiet s) in
    with_block-Quiet c.active_block (λ b. on_thinking f g b b.kind) g
      (λ b. on_thinking-Quiet f g b b.kind (push_thinking-Quiet s b) hg) hg c

text_delta-Quiet : (s : String) → Quiet (text_delta s)
unfolding text_delta
text_delta-Quiet s c =
    let f = push_text s in
    let g : Op = start_block (some text) andthen looking λ d. with_block d.active_block f nothing in
    let hg : Quiet g = opening-Quiet text f (push_text-Quiet s) in
    with_block-Quiet c.active_block (λ b. on_text f g b b.kind) g
      (λ b. on_text-Quiet f g b b.kind (push_text-Quiet s b) hg) hg c

signature_delta-Quiet : (s : String) → Quiet (signature_delta s)
unfolding signature_delta
signature_delta-Quiet s c = (tt, refl)

push_arguments-Quiet : (id s : String) (b : Block) → Quiet (push_arguments id s b)
unfolding push_arguments
push_arguments-Quiet id s b = push-Quiet _ _ s b refl

arguments_delta-Quiet : (s : String) → Quiet (arguments_delta s)
unfolding arguments_delta
arguments_delta-Quiet s c =
    let f : String → Block → Op = λ id. push_arguments id s in
    with_block-Quiet c.active_block (λ b. on_tool f nothing b b.kind) nothing
      (λ b. on_tool-Quiet f nothing b b.kind (λ id. push_arguments-Quiet id s b) (λ d. (tt, refl)))
      (λ d. (tt, refl)) c

chunk_op-Quiet : (f : String → Op) (j : Json) → ((s : String) → Quiet (f s)) → Quiet (chunk_op f j)
chunk_op-Quiet f (str s) h = h s
chunk_op-Quiet f _ h = λ c. (tt, refl)

pub delta_op-Quiet : (delta : Fields) → Quiet (delta_op delta)
unfolding delta_op
delta_op-Quiet d =
    if_Quiet (says "thinking_delta" (get "type" d)) _ _
      (chunk_op-Quiet thinking_delta _ thinking_delta-Quiet)
      (if_Quiet (says "signature_delta" (get "type" d)) _ _
        (chunk_op-Quiet signature_delta _ signature_delta-Quiet)
        (if_Quiet (says "text_delta" (get "type" d)) _ _
          (chunk_op-Quiet text_delta _ text_delta-Quiet)
          (if_Quiet (says "input_json_delta" (get "type" d)) _ _
            (chunk_op-Quiet arguments_delta _ arguments_delta-Quiet) (λ c. (tt, refl)))))
