-- ===== src/Responses/Stream/Feed/Pieces.antt =====
-- app/responses_compat.py: a piece of text is added to the block of its kind, which is opened where the
-- block that is open is another.
use mathlib.Core.Path.{subst}
use zcode2api.Prelude.{
  ◌≡◌, refl, sym, ap, ◌∙◌, String, true, false, some, List, [], ◌∷◌, ◌++◌, Bool, if◌then◌else◌,
  concat, concat-append_last, pos,
}
use zcode2api.Prelude.Json
use zcode2api.Prelude.Json.{Json, Fields, null, bool, int, float, str, arr, obj, get, fields, array}
use zcode2api.Chat.{says}
use zcode2api.Responses.Stream.{
  Op, Payload, Kind, thinking, text, tool_use, Block, Converter, looking, nothing, ◌andthen◌, emit,
}
use zcode2api.Responses.Stream.Deltas.{
  start_block, push, push_thinking, push_text, push_arguments, with_block, on_thinking, on_text,
  on_tool, signed_block, thinking_delta, text_delta, signature_delta, arguments_delta, appended,
  signed, at_item,
}
use zcode2api.Responses.Stream.Phase.{
  reasoning, message, function_call, Phase, fresh, idle, writing, writes, stays, steps, delta_type,
}
use zcode2api.Responses.Stream.Feed.{chunk_op, delta_op}
use zcode2api.Responses.Stream.Feed.Simulates.{
  Holds, Holds-Live, at_block, Live, unstarted, resting, holding, Lives, Moves, kind_name,
}
use zcode2api.Responses.Stream.Feed.Openings.{Opens, start_block-Opens, andthen-Lives}

push-Lives :
    (t : String) (extra : Payload) (s : String) (b : Block) (items : List Json) (c : Converter)
    → t ≡ delta_type (kind_name b.kind)
    → get "delta" (fields (at_item b.item_id b.output_index ++ extra)) ≡ str s
    → Holds b items c
    → Lives (at_block b items) (push t extra s b c)
unfolding push emit Json.get
push-Lives t extra s b items c ht hd h =
    let text_now : concat (appended s b).buffer ≡ concat (concat b.buffer ∷ s ∷ []) =
      concat-append_last b.buffer s in
    (
      writing (kind_name b.kind) b.item_id items (concat (concat b.buffer ∷ s ∷ [])),
      steps
          (writes _ (kind_name b.kind) b.item_id items (concat b.buffer) s ht
            (refl, ap (λ n. int (pos n)) h.placed) hd)
          stays,
      subst (λ t. Live (push t extra s b c).0 (writing (kind_name b.kind) b.item_id items t))
          text_now (holding items (appended s b) h.unfinished h.begun refl h.kept h.placed),
    )

push_thinking-Lives :
    (s : String) (b : Block) (items : List Json) (c : Converter)
    → reasoning ≡ kind_name b.kind
    → Holds b items c
    → Lives (at_block b items) (push_thinking s b c)
unfolding push_thinking Json.get
push_thinking-Lives s b items c k h = push-Lives _ _ s b items c (ap delta_type k) refl h

push_text-Lives :
    (s : String) (b : Block) (items : List Json) (c : Converter)
    → message ≡ kind_name b.kind
    → Holds b items c
    → Lives (at_block b items) (push_text s b c)
unfolding push_text Json.get
push_text-Lives s b items c k h = push-Lives _ _ s b items c (ap delta_type k) refl h

push_arguments-Lives :
    (id s : String) (b : Block) (items : List Json) (c : Converter)
    → function_call ≡ kind_name b.kind
    → Holds b items c
    → Lives (at_block b items) (push_arguments id s b c)
unfolding push_arguments Json.get
push_arguments-Lives id s b items c k h = push-Lives _ _ s b items c (ap delta_type k) refl h

-- The block that a piece opens takes it.
abbrev pushing : (Block → Op) → Op
pushing f = looking λ c. with_block c.active_block f nothing

pushing-Lives :
    (f : Block → Op) (b : Block) (items : List Json) (c : Converter)
    → Holds b items c
    → Lives (at_block b items) (f b c)
    → Lives (at_block b items) (pushing f c)
pushing-Lives f b items c h r =
    subst (λ o. Lives (at_block b items) (with_block o f nothing c)) (sym h.active) r

opening-Lives :
    (k : Kind) (f : Block → Op)
    → ((b : Block) (items : List Json) (c : Converter)
        → kind_name k ≡ kind_name b.kind
        → Holds b items c
        → Lives (at_block b items) (f b c))
    → Moves (start_block (some k) andthen pushing f)
opening-Lives k f hf c p h =
    let o : Opens p k (start_block (some k) c) = start_block-Opens k c p h in
    let d : Converter = (start_block (some k) c).0 in
    andthen-Lives (start_block (some k)) (pushing f) c p (at_block o.1 o.0) o.2
      (pushing-Lives f o.1 o.0 d o.4 (hf o.1 o.0 d (sym (ap kind_name o.3)) o.4))

on_thinking-Lives :
    (f : Block → Op) (g : Op) (b : Block) (p : Phase) (c : Converter) (k : Kind)
    → b.kind ≡ k
    → (reasoning ≡ kind_name b.kind → Lives p (f b c))
    → Lives p (g c)
    → Lives p (on_thinking f g b k c)
on_thinking-Lives f g b p c (thinking _) e hf hg = hf (sym (ap kind_name e))
on_thinking-Lives f g b p c text e hf hg = hg
on_thinking-Lives f g b p c (tool_use _ _) e hf hg = hg

on_text-Lives :
    (f : Block → Op) (g : Op) (b : Block) (p : Phase) (c : Converter) (k : Kind)
    → b.kind ≡ k
    → (message ≡ kind_name b.kind → Lives p (f b c))
    → Lives p (g c)
    → Lives p (on_text f g b k c)
on_text-Lives f g b p c text e hf hg = hf (sym (ap kind_name e))
on_text-Lives f g b p c (thinking _) e hf hg = hg
on_text-Lives f g b p c (tool_use _ _) e hf hg = hg

on_tool-Lives :
    (s : String) (b : Block) (items : List Json) (c : Converter) (k : Kind)
    → b.kind ≡ k
    → Holds b items c
    → Lives (at_block b items) (on_tool (λ id. push_arguments id s) nothing b k c)
on_tool-Lives s b items c (tool_use id _) e h =
    push_arguments-Lives id s b items c (sym (ap kind_name e)) h
on_tool-Lives s b items c (thinking _) e h = (at_block b items, stays, Holds-Live b items c h)
on_tool-Lives s b items c text e h = (at_block b items, stays, Holds-Live b items c h)

-- What holds with no block, and with each block that may be open.
with_block-Lives :
    (f : Block → Op) (g : Op)
    → ((b : Block) (items : List Json) (c : Converter)
        → Holds b items c
        → Lives (at_block b items) (f b c))
    → Moves g
    → Moves (looking λ c. with_block c.active_block f g)
with_block-Lives f g hf hg c _ (unstarted fin st act it) =
    subst (λ o. Lives fresh (with_block o f g c)) (sym act) (hg c fresh (unstarted fin st act it))
with_block-Lives f g hf hg c _ (resting items fin st act it) =
    subst (λ o. Lives (idle items) (with_block o f g c)) (sym act)
      (hg c (idle items) (resting items fin st act it))
with_block-Lives f g hf hg c _ (holding items b fin st act it pl) =
    subst (λ o. Lives (at_block b items) (with_block o f g c)) (sym act)
      (hf b items c (record { unfinished = fin; begun = st; active = act; kept = it; placed = pl }))

thinking_delta-Moves : (s : String) → Moves (thinking_delta s)
unfolding thinking_delta
thinking_delta-Moves s =
    let f : Block → Op = push_thinking s in
    let g : Op = start_block (some (thinking "")) andthen pushing f in
    let opens : Moves g = opening-Lives (thinking "") f (push_thinking-Lives s) in
    with_block-Lives (λ b. on_thinking f g b b.kind) g
      (λ b items c h.
        on_thinking-Lives f g b (at_block b items) c b.kind refl
          (λ e. push_thinking-Lives s b items c e h)
          (opens c (at_block b items) (Holds-Live b items c h)))
      opens

text_delta-Moves : (s : String) → Moves (text_delta s)
unfolding text_delta
text_delta-Moves s =
    let f : Block → Op = push_text s in
    let g : Op = start_block (some text) andthen pushing f in
    let opens : Moves g = opening-Lives text f (push_text-Lives s) in
    with_block-Lives (λ b. on_text f g b b.kind) g
      (λ b items c h.
        on_text-Lives f g b (at_block b items) c b.kind refl (λ e. push_text-Lives s b items c e h)
          (opens c (at_block b items) (Holds-Live b items c h)))
      opens

pub nothing-Moves : Moves nothing
nothing-Moves c p h = (p, stays, h)

arguments_delta-Moves : (s : String) → Moves (arguments_delta s)
unfolding arguments_delta
arguments_delta-Moves s =
    with_block-Lives (λ b. on_tool (λ id. push_arguments id s) nothing b b.kind) nothing
      (λ b items c h. on_tool-Lives s b items c b.kind refl h) nothing-Moves

-- A signature changes nothing that the protocol shows.
signed-at_block :
    (more : String) (b : Block) (items : List Json) (k : Kind)
    → b.kind ≡ k
    → (at_block (signed more b k) items ≡ at_block b items)
      × ((signed more b k).output_index ≡ b.output_index)
signed-at_block more b items (thinking s) e =
    (ap (λ k. writing k b.item_id items (concat b.buffer)) (sym (ap kind_name e)), refl)
signed-at_block more b items text e = (refl, refl)
signed-at_block more b items (tool_use _ _) e = (refl, refl)

signature_delta-Moves : (more : String) → Moves (signature_delta more)
unfolding signature_delta
signature_delta-Moves more c _ (unstarted fin st act it) =
    (fresh, stays, unstarted fin st (ap (signed_block more) act) it)
signature_delta-Moves more c _ (resting items fin st act it) =
    (idle items, stays, resting items fin st (ap (signed_block more) act) it)
signature_delta-Moves more c _ (holding items b fin st act it pl) =
    let e : (at_block (signed more b b.kind) items ≡ at_block b items)
        × ((signed more b b.kind).output_index ≡ b.output_index) =
      signed-at_block more b items b.kind refl in
    (
      at_block b items,
      stays,
      subst (Live (signature_delta more c).0) e.0
          (holding items (signed more b b.kind) fin st (ap (signed_block more) act) it (e.1 ∙ pl)),
    )

chunk_op-Moves : (f : String → Op) (j : Json) → ((s : String) → Moves (f s)) → Moves (chunk_op f j)
chunk_op-Moves f (str s) h = h s
chunk_op-Moves f _ h = nothing-Moves

pub if_Moves : (b : Bool) (x y : Op) → Moves x → Moves y → Moves (if b then x else y)
if_Moves true x y hx hy = hx
if_Moves false x y hx hy = hy

pub delta_op-Moves : (delta : Fields) → Moves (delta_op delta)
unfolding delta_op
delta_op-Moves d =
    if_Moves (says "thinking_delta" (get "type" d)) _ _
      (chunk_op-Moves thinking_delta _ thinking_delta-Moves)
      (if_Moves (says "signature_delta" (get "type" d)) _ _
        (chunk_op-Moves signature_delta _ signature_delta-Moves)
        (if_Moves (says "text_delta" (get "type" d)) _ _
          (chunk_op-Moves text_delta _ text_delta-Moves)
          (if_Moves (says "input_json_delta" (get "type" d)) _ _
            (chunk_op-Moves arguments_delta _ arguments_delta-Moves) nothing-Moves)))
