-- ===== src/Responses/Stream/Feed/Openings.antt =====
-- app/responses_compat.py: opening a block and adding to one keep to the protocol.
use mathlib.Core.Path.{subst}
use zcode2api.Prelude.{
  ℕ, ◌≡◌, refl, sym, ap, ◌∙◌, String, true, Option, none, some, List, [], arith, concat, length,
  Bool-cases, pos, inl, inr,
}
use zcode2api.Prelude.Json
use zcode2api.Prelude.Json.{Json, int, str, get, get_in, fields, array}
use zcode2api.Responses.Stream.{
  Op, Event, Kind, thinking, text, tool_use, Block, Converter, ◌andthen◌, emit, begin,
  ensure_started, close_active_block,
}
use zcode2api.Responses.Stream.Deltas.{announce, open_block, item_id_of, start_block}
use zcode2api.Responses.Stream.Phase.{
  reasoning, message, function_call, Phase, fresh, idle, writing, adds, adds_part, Runs, stays,
  steps, no_part_added, Runs-append,
}
use zcode2api.Responses.Stream.Feed.Simulates.{
  Holds, Holds-Live, at_block, Live, unstarted, resting, holding, Lives, Moves, Rests, kind_name,
  ensure_started-Moves, close_block-Rests, close_active_block-none, close_active_block-some,
}

pub andthen-Lives :
    (m k : Op) (c : Converter) (p q : Phase)
    → Runs p (m c).1 q
    → Lives q (k (m c).0)
    → Lives p ((m andthen k) c)
andthen-Lives m k c p q h r = (r.0, Runs-append (m c).1 (k (m c).0).1 h r.1, r.2)

pub andthen-Moves : (m k : Op) → Moves m → Moves k → Moves (m andthen k)
andthen-Moves m k hm hk c p h =
    let r : Lives p (m c) = hm c p h in andthen-Lives m k c p r.0 r.1 (hk (m c).0 r.0 r.2)

-- Once a stream has begun, closing the block that is open, if one is, leaves it at rest.
closing-Rests :
    (c : Converter) (p : Phase) → Live c p → c.started ≡ true → Rests p (close_active_block c)
closing-Rests c _ (unstarted fin st act it) h = absurd (ground arith)
closing-Rests c _ (resting items fin st act it) h =
    subst (Rests (idle items)) (sym (close_active_block-none c act))
      (items, stays, resting items fin st act it)
closing-Rests c _ (holding items b fin st act it at) h =
    subst (Rests (writing (kind_name b.kind) b.item_id items (concat b.buffer)))
      (sym (close_active_block-some c b act)) (close_block-Rests b items c fin st it at)

pub close_active_block-Moves : Moves close_active_block
close_active_block-Moves c _ (unstarted fin st act it) =
    subst (Lives fresh) (sym (close_active_block-none c act))
      (fresh, stays, unstarted fin st act it)
close_active_block-Moves c _ (resting items fin st act it) =
    let r : Rests (idle items) (close_active_block c) =
      closing-Rests c (idle items) (resting items fin st act it) st in
    (idle r.0, r.1, r.2)
close_active_block-Moves c p (holding items b fin st act it at) =
    let r : Rests p (close_active_block c) =
      closing-Rests c p (holding items b fin st act it at) st in
    (idle r.0, r.1, r.2)

begin_started : (c : Converter) → (begin c).0.started ≡ true
unfolding begin emit
begin_started c = refl

ensure_started_started : (c : Converter) → (ensure_started c).0.started ≡ true
unfolding ensure_started
ensure_started_started c = elim (Bool-cases c.started) [
  | inl e ↦ simp e
  | inr e ↦ simp (e, begin_started)
]

-- `_ensure_started` and `_close_active_block` one after the other.
pub closed-Rests :
    (c : Converter) (p : Phase) → Live c p → Rests p ((ensure_started andthen close_active_block) c)
closed-Rests c p h =
    let d : Converter = (ensure_started c).0 in
    let a : Lives p (ensure_started c) = ensure_started-Moves c p h in
    let r : Rests a.0 (close_active_block d) = closing-Rests d a.0 a.2 (ensure_started_started c) in
    (r.0, Runs-append (ensure_started c).1 (close_active_block d).1 a.1 r.1, r.2)

-- Opening a block in a stream at rest.
announce-Runs :
    (k : Kind) (id : String) (items : List Json) (n : ℕ) (c : Converter)
    → n ≡ length items
    → Runs (idle items) (announce k id n c).1 (writing (kind_name k) id items "")
unfolding announce emit Json.get
announce-Runs (thinking _) id items n c h =
    let at : int (pos n) ≡ int (pos (length items)) = ap (λ k. int (pos k)) h in
    steps (adds _ reasoning id items refl at (refl, refl))
      (steps (adds_part _ reasoning id items refl (refl, at)) stays)
announce-Runs text id items n c h =
    let at : int (pos n) ≡ int (pos (length items)) = ap (λ k. int (pos k)) h in
    steps (adds _ message id items refl at (refl, refl))
      (steps (adds_part _ message id items refl (refl, at)) stays)
announce-Runs (tool_use _ _) id items n c h =
    let at : int (pos n) ≡ int (pos (length items)) = ap (λ k. int (pos k)) h in
    steps (adds _ function_call id items refl at (refl, refl))
      (no_part_added function_call id items refl stays)

announce_keeps :
    (k : Kind) (id : String) (n : ℕ) (c : Converter)
    → (m : ℕ) × ((announce k id n c).0 ≡ record c { seq = m })
unfolding announce emit
announce_keeps (thinking _) id n c = (_, refl)
announce_keeps text id n c = (_, refl)
announce_keeps (tool_use _ _) id n c = (_, refl)

-- A block of the kind is opened.
abbrev pub Opens : Phase → Kind → Converter × List Event → Type 0
Opens p k (d, es) =
    (items : List Json) × (b : Block) × Runs p es (at_block b items)
    × (b.kind ≡ k)
    × Holds b items d

pub open_block-Opens :
    (k : Kind) (items : List Json) (c : Converter)
    → Live c (idle items)
    → Opens (idle items) k (open_block k c)
unfolding open_block
open_block-Opens k _ c (resting items fin st act it) =
    let n = length c.output_items in
    let id = item_id_of k c.response_id n in
    let b : Block = record { kind = k; output_index = n; item_id = id; buffer = [] } in
    let d : Converter = record c { active_block = some b } in
    let at : n ≡ length items = ap length it in
    let kept : (announce k id n d).0 ≡ record d { seq = (announce_keeps k id n d).0 } =
      (announce_keeps k id n d).1 in
    (
      items,
      b,
      announce-Runs k id items n d at,
      refl,
      record {
        unfinished = ap (λ x. x.finished) kept ∙ fin;
        begun = ap (λ x. x.started) kept ∙ st;
        active = ap (λ x. x.active_block) kept;
        kept = ap (λ x. x.output_items) kept ∙ it;
        placed = at;
      },
    )

pub start_block-Opens :
    (k : Kind) (c : Converter) (p : Phase) → Live c p → Opens p k (start_block (some k) c)
unfolding start_block
start_block-Opens k c p h =
    let r : Rests p ((ensure_started andthen close_active_block) c) = closed-Rests c p h in
    let d : Converter = ((ensure_started andthen close_active_block) c).0 in
    let o : Opens (idle r.0) k (open_block k d) = open_block-Opens k r.0 d r.2 in
    (
      o.0,
      o.1,
      Runs-append ((ensure_started andthen close_active_block) c).1 (open_block k d).1 r.1 o.2,
      o.3,
      o.4,
    )

pub start_block-Moves : (o : Option Kind) → Moves (start_block o)
unfolding start_block
start_block-Moves none c p h =
    let r : Rests p ((ensure_started andthen close_active_block) c) = closed-Rests c p h in
    (idle r.0, r.1, r.2)
start_block-Moves (some k) c p h =
    let o : Opens p k (start_block (some k) c) = start_block-Opens k c p h in
    (at_block o.1 o.0, o.2, Holds-Live o.1 o.0 (start_block (some k) c).0 o.4)
