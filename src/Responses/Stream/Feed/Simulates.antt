-- ===== src/Responses/Stream/Feed/Simulates.antt =====
-- app/responses_compat.py: the operations of the converter keep to the protocol of Phase.
use mathlib.Core.Path.{subst}
use zcode2api.Prelude.{
  ℕ, ◌≡◌, refl, sym, ap, ◌∙◌, String, true, false, none, some, List, [], ◌∷◌, ◌++◌, concat, length,
  pos,
}
use zcode2api.Prelude.Json
use zcode2api.Prelude.Json.{Json, int, str, get, get_in, fields, array}
use zcode2api.Responses.Stream.{
  Op, Event, Kind, thinking, text, tool_use, Block, Converter, emit, begin, ensure_started,
  done_item, close_text, close_block, close_active_block,
}
use zcode2api.Responses.Stream.Phase.{
  ItemKind, reasoning, message, function_call, Phase, fresh, idle, writing, parted, IsItem, creates,
  progresses, completes, completes_part, finishes, Runs, stays, steps, no_part_done, Runs-append,
  item_text,
}

abbrev pub kind_name : Kind → ItemKind
kind_name (thinking signature) = reasoning
kind_name text = message
kind_name (tool_use call_id name) = function_call

-- The phase that a converter which has not finished stands for.
pub data Live (c : Converter) : Phase → Type 0 where
  unstarted :
      c.finished ≡ false
      → c.started ≡ false
      → c.active_block ≡ none
      → c.output_items ≡ []
      → Live c fresh
  resting :
      (items : List Json)
      → c.finished ≡ false
      → c.started ≡ true
      → c.active_block ≡ none
      → c.output_items ≡ items
      → Live c (idle items)
  holding :
      (items : List Json) (b : Block)
      → c.finished ≡ false
      → c.started ≡ true
      → c.active_block ≡ some b
      → c.output_items ≡ items
      → b.output_index ≡ length items
      → Live c (writing (kind_name b.kind) b.item_id items (concat b.buffer))

-- What a converter that holds a block says of itself.
pub record Holds (b : Block) (items : List Json) (c : Converter) : Type 0 where
  pub unfinished : c.finished ≡ false
  pub begun : c.started ≡ true
  pub active : c.active_block ≡ some b
  pub kept : c.output_items ≡ items
  pub placed : b.output_index ≡ length items

-- The phase of such a converter.
abbrev pub at_block : Block → List Json → Phase
at_block b items = writing (kind_name b.kind) b.item_id items (concat b.buffer)

pub Holds-Live :
    (b : Block) (items : List Json) (c : Converter) → Holds b items c → Live c (at_block b items)
Holds-Live b items c h = holding items b h.unfinished h.begun h.active h.kept h.placed

-- From a live converter the operation runs the protocol to a phase that the result stands for.
abbrev pub Lives : Phase → Converter × List Event → Type 0
Lives p (d, es) = (q : Phase) × Runs p es q × Live d q

abbrev pub Moves : Op → Type 0
Moves op = (c : Converter) (p : Phase) → Live c p → Lives p (op c)

-- After `_ensure_started` the stream has begun; after a block is closed it rests.
abbrev pub Rests : Phase → Converter × List Event → Type 0
Rests p (d, es) = (items : List Json) × Runs p es (idle items) × Live d (idle items)

close_text-Runs :
    (b : Block) (k : Kind) (items : List Json) (s : String) (c : Converter)
    → b.output_index ≡ length items
    → Runs
        (writing (kind_name k) b.item_id items s)
        (close_text b k s c).1
        (parted (kind_name k) b.item_id items s)
unfolding close_text emit Json.get
close_text-Runs b (thinking _) items s c h =
    steps (completes _ reasoning b.item_id items s refl (refl, ap (λ n. int (pos n)) h) refl) (
      steps (completes_part _ reasoning b.item_id items s refl (refl, ap (λ n. int (pos n)) h) refl)
        stays)
close_text-Runs b text items s c h =
    steps (completes _ message b.item_id items s refl (refl, ap (λ n. int (pos n)) h) refl) (
      steps (completes_part _ message b.item_id items s refl (refl, ap (λ n. int (pos n)) h) refl)
        stays)
close_text-Runs b (tool_use _ _) items s c h =
    steps (completes _ function_call b.item_id items s refl (refl, ap (λ n. int (pos n)) h) refl)
      (no_part_done function_call b.item_id items s refl stays)

done_item-IsItem :
    (b : Block) (k : Kind) (s : String)
    → IsItem (kind_name k) b.item_id (done_item b k s)
      × (item_text (kind_name k) (done_item b k s) ≡ str s)
unfolding done_item Json.get
done_item-IsItem b (thinking _) s = ((refl, refl), refl)
done_item-IsItem b text s = ((refl, refl), refl)
done_item-IsItem b (tool_use _ _) s = ((refl, refl), refl)

-- The converter keeps all but its number.
close_text_keeps :
    (b : Block) (k : Kind) (s : String) (c : Converter)
    → (n : ℕ) × ((close_text b k s c).0 ≡ record c { seq = n })
unfolding close_text emit
close_text_keeps b (thinking _) s c = (_, refl)
close_text_keeps b text s c = (_, refl)
close_text_keeps b (tool_use _ _) s c = (_, refl)

module _ (b : Block) (items : List Json) (c : Converter) (fin : c.finished ≡ false)
    (st : c.started ≡ true) (it : c.output_items ≡ items) (at : b.output_index ≡ length items) where
  pub close_block-Rests :
      Rests (writing (kind_name b.kind) b.item_id items (concat b.buffer)) (close_block b c)
  unfolding close_block emit Json.get
  close_block-Rests =
      let s : String = concat b.buffer in
      let item : Json = done_item b b.kind s in
      let d : Converter = record c { active_block = none } in
      let e : Converter = (close_text b b.kind s d).0 in
      let kept : e ≡ record d { seq = (close_text_keeps b b.kind s d).0 } =
        (close_text_keeps b b.kind s d).1 in
      let same : e.output_items ≡ items = ap (λ x. x.output_items) kept ∙ it in
      let about : IsItem (kind_name b.kind) b.item_id item
          × (item_text (kind_name b.kind) item ≡ str s) =
        done_item-IsItem b b.kind s in
      (
        items ++ item ∷ [],
        Runs-append (close_text b b.kind s d).1 _ (close_text-Runs b b.kind items s d at) (
            steps
              (finishes _ (kind_name b.kind) b.item_id items s refl (ap (λ n. int (pos n)) at)
                about.0 about.1)
              stays),
        resting (items ++ item ∷ []) (ap (λ x. x.finished) kept ∙ fin)
            (ap (λ x. x.started) kept ∙ st) (ap (λ x. x.active_block) kept)
            (ap (λ l. l ++ item ∷ []) same),
      )

begin-Rests : (c : Converter) → Live c fresh → Rests fresh (begin c)
unfolding begin emit
begin-Rests c (unstarted fin st act it) =
    ([], steps (creates _ refl) (steps (progresses _ refl) stays), resting [] fin refl act it)

ensure_started-started : (c : Converter) → c.started ≡ true → ensure_started c ≡ (c, [])
unfolding ensure_started
ensure_started-started c h = rw h

ensure_started-begin : (c : Converter) → c.started ≡ false → ensure_started c ≡ begin c
unfolding ensure_started
ensure_started-begin c h = rw h

pub close_active_block-none :
    (c : Converter) → c.active_block ≡ none → close_active_block c ≡ (c, [])
unfolding close_active_block
close_active_block-none c h = rw h

pub close_active_block-some :
    (c : Converter) (b : Block) → c.active_block ≡ some b → close_active_block c ≡ close_block b c
unfolding close_active_block
close_active_block-some c b h = rw h

-- A converter that has started, with no block or one.
pub ensure_started-Moves : Moves ensure_started
ensure_started-Moves c _ (unstarted fin st act it) =
    let r : Rests fresh (begin c) = begin-Rests c (unstarted fin st act it) in
    subst (Lives fresh) (sym (ensure_started-begin c st)) (idle r.0, r.1, r.2)
ensure_started-Moves c _ (resting items fin st act it) =
    subst (Lives (idle items)) (sym (ensure_started-started c st))
      (idle items, stays, resting items fin st act it)
ensure_started-Moves c _ (holding items b fin st act it at) =
    subst (Lives (writing (kind_name b.kind) b.item_id items (concat b.buffer)))
      (sym (ensure_started-started c st)) (_, stays, holding items b fin st act it at)
