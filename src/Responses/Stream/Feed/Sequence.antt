-- ===== src/Responses/Stream/Feed/Sequence.antt =====
-- app/responses_compat.py: `_emit` numbers the events one after the other.
use zcode2api.Prelude.{
  ℕ, suc, ◌≡◌, refl, String, true, false, Option, none, some, List, [], ◌∷◌, ◌++◌, if◌then◌else◌,
  arith, concat,
}
use zcode2api.Responses.Stream.{
  Op, Event, Payload, Kind, thinking, text, tool_use, Block, Converter, ◌andthen◌, emit, begin,
  ensure_started, close_text, close_block, close_active_block,
}
use zcode2api.Responses.Stream.Deltas.{
  announce, open_block, start_block, push, with_block, on_thinking, on_text, on_tool,
}

-- The events are numbered from `n` to `m`, `n` left out.
abbrev pub Numbered : ℕ → List Event → ℕ → Type 0
Numbered n [] m = n ≡ m
Numbered n (e ∷ es) m = (e.sequence_number ≡ suc n) × Numbered (suc n) es m

abbrev pub Numbers : Op → Type 0
Numbers op = (c : Converter) → Numbered c.seq (op c).1 (op c).0.seq

pub Numbered-append :
    (n m k : ℕ) (es fs : List Event) → Numbered n es m → Numbered m fs k → Numbered n (es ++ fs) k
Numbered-append n m k [] fs h g = ground arith
Numbered-append n m k (e ∷ es) fs h g = (h.0, Numbered-append (suc n) m k es fs h.1 g)

pub andthen-Numbers : (m k : Op) → Numbers m → Numbers k → Numbers (m andthen k)
andthen-Numbers m k hm hk c = Numbered-append c.seq _ _ (m c).1 (k (m c).0).1 (hm c) (hk (m c).0)

pub emit-Numbers : (event_type : String) (p : Payload) → Numbers (emit event_type p)
unfolding emit
emit-Numbers event_type p c = (refl, refl)

pub begin-Numbers : Numbers begin
unfolding begin emit
begin-Numbers c = (refl, (refl, refl))

pub ensure_started-Numbers : Numbers ensure_started
unfolding ensure_started
ensure_started-Numbers c =
    elim c.started
      as (λ b.
        (let r : Converter × List Event = if b then (c, []) else begin c in
          Numbered c.seq r.1 r.0.seq)) [ true ↦ refl | false ↦ begin-Numbers c ]

pub close_text-Numbers : (b : Block) (k : Kind) (s : String) → Numbers (close_text b k s)
unfolding close_text emit
close_text-Numbers b (thinking _) s c = (refl, (refl, refl))
close_text-Numbers b text s c = (refl, (refl, refl))
close_text-Numbers b (tool_use _ _) s c = (refl, refl)

pub close_block-Numbers : (b : Block) → Numbers (close_block b)
unfolding close_block emit
close_block-Numbers b c =
    let d : Converter = record c { active_block = none } in
    let s = concat b.buffer in
    Numbered-append c.seq _ _ (close_text b b.kind s d).1 _ (close_text-Numbers b b.kind s d)
      (refl, refl)

pub close_active_block-Numbers : Numbers close_active_block
unfolding close_active_block
close_active_block-Numbers c =
    elim c.active_block
      as (λ o.
        (let r : Converter × List Event = elim o [ none ↦ (c, []) | some b ↦ close_block b c ] in
          Numbered c.seq r.1 r.0.seq)) [ none ↦ refl | some b ↦ close_block-Numbers b c ]

pub announce-Numbers : (k : Kind) (id : String) (n : ℕ) → Numbers (announce k id n)
unfolding announce emit
announce-Numbers (thinking _) id n c = (refl, (refl, refl))
announce-Numbers text id n c = (refl, (refl, refl))
announce-Numbers (tool_use _ _) id n c = (refl, refl)

pub open_block-Numbers : (k : Kind) → Numbers (open_block k)
unfolding open_block
open_block-Numbers k c = announce-Numbers k _ _ _

closed-Numbers : Numbers (ensure_started andthen close_active_block)
closed-Numbers =
    andthen-Numbers ensure_started close_active_block ensure_started-Numbers
      close_active_block-Numbers

pub start_block-Numbers : (o : Option Kind) → Numbers (start_block o)
unfolding start_block
start_block-Numbers none = closed-Numbers
start_block-Numbers (some k) =
    andthen-Numbers (ensure_started andthen close_active_block) (open_block k) closed-Numbers
      (open_block-Numbers k)

pub push-Numbers :
    (t : String) (p : Payload) (chunk : String) (b : Block) → Numbers (push t p chunk b)
unfolding push emit
push-Numbers t p chunk b c = (refl, refl)

pub with_block-Numbers :
    (o : Option Block) (f : Block → Op) (g : Op)
    → ((b : Block) → Numbers (f b))
    → Numbers g
    → Numbers (with_block o f g)
with_block-Numbers none f g hf hg = hg
with_block-Numbers (some b) f g hf hg = hf b

pub on_thinking-Numbers :
    (f : Block → Op) (g : Op) (b : Block) (k : Kind)
    → Numbers (f b)
    → Numbers g
    → Numbers (on_thinking f g b k)
on_thinking-Numbers f g b (thinking _) hf hg = hf
on_thinking-Numbers f g b _ hf hg = hg

pub on_text-Numbers :
    (f : Block → Op) (g : Op) (b : Block) (k : Kind)
    → Numbers (f b)
    → Numbers g
    → Numbers (on_text f g b k)
on_text-Numbers f g b text hf hg = hf
on_text-Numbers f g b _ hf hg = hg

pub on_tool-Numbers :
    (f : String → Block → Op) (g : Op) (b : Block) (k : Kind)
    → ((id : String) → Numbers (f id b))
    → Numbers g
    → Numbers (on_tool f g b k)
on_tool-Numbers f g b (tool_use id _) hf hg = hf id
on_tool-Numbers f g b _ hf hg = hg
