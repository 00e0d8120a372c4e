-- ===== src/Responses/Stream/Feed/Replies.antt =====
-- app/responses_compat.py: a call of `feed` that returns keeps to the protocol.
use mathlib.Core.Path.{subst}
use zcode2api.Prelude.{
  ◌≡◌, refl, ◌∙◌, String, true, false, Option, none, some, List, Bool, if◌then◌else◌, inl, inr,
}
use zcode2api.Prelude.Json.{Fields, get}
use zcode2api.Prelude.Number.{as_int}
use zcode2api.Chat.{part, says}
use zcode2api.Responses.Stream.{
  Op, Event, Converter, nothing, ◌andthen◌, ensure_started, close_active_block,
}
use zcode2api.Responses.Stream.Deltas.{start_block, kind_of}
use zcode2api.Responses.Stream.Phase.{Phase, ended, Runs, stays}
use zcode2api.Responses.Stream.Feed.{
  Reply, returns, raises, reply, reading, named, with_input, with_cached, with_output, stopped,
  message_start, content_block_start, content_block_delta, delta_op, message_delta, feed,
}
use zcode2api.Responses.Stream.Feed.Simulates.{
  Live, unstarted, resting, holding, Lives, Moves, ensure_started-Moves,
}
use zcode2api.Responses.Stream.Feed.Openings.{
  start_block-Moves, close_active_block-Moves, andthen-Moves,
}
use zcode2api.Responses.Stream.Feed.Pieces.{nothing-Moves, delta_op-Moves}
use zcode2api.Responses.Stream.Feed.Ends.{Stands, done-Runs, done_finished}

-- From a live converter the operation runs the protocol to a phase that the result stands for.
abbrev Ends : Op → Type 0
Ends op =
    (c : Converter) (p : Phase) → Live c p → (q : Phase) × Runs p (op c).1 q × Stands (op c).0 q

Moves-Ends : (op : Op) → Moves op → Ends op
Moves-Ends op h c p l = let r : Lives p (op c) = h c p l in (r.0, r.1, inl r.2)

abbrev ReplyEnds : Reply → Type 0
ReplyEnds (returns op) = Ends op
ReplyEnds (raises op) = Unit

reading_ends {ℓ} :
    {A : Type ℓ} (o : Option A) (before : Op) (f : A → Reply)
    → ((a : A) → ReplyEnds (f a))
    → ReplyEnds (reading o before f)
reading_ends none before f h = tt
reading_ends (some a) before f h = h a

if_ends : (b : Bool) (x y : Reply) → ReplyEnds x → ReplyEnds y → ReplyEnds (if b then x else y)
if_ends true x y hx hy = hx
if_ends false x y hx hy = hy

-- A change of what the protocol does not show.
abbrev Quiet : (Converter → Converter) → Type 0
Quiet f = (c : Converter) (p : Phase) → Live c p → Live (f c) p

changed_Quiet :
    (f : Converter → Converter)
    → ((c : Converter)
        → ((f c).finished ≡ c.finished)
          × ((f c).started ≡ c.started)
          × ((f c).active_block ≡ c.active_block)
          × ((f c).output_items ≡ c.output_items))
    → Quiet f
changed_Quiet f h c _ (unstarted fin st act it) =
    unstarted ((h c).0 ∙ fin) ((h c).1 ∙ st) ((h c).2 ∙ act) ((h c).3 ∙ it)
changed_Quiet f h c _ (resting items fin st act it) =
    resting items ((h c).0 ∙ fin) ((h c).1 ∙ st) ((h c).2 ∙ act) ((h c).3 ∙ it)
changed_Quiet f h c _ (holding items b fin st act it at) =
    holding items b ((h c).0 ∙ fin) ((h c).1 ∙ st) ((h c).2 ∙ act) ((h c).3 ∙ it) at

message_start_ends : (evt : Fields) → ReplyEnds (message_start evt)
unfolding message_start
message_start_ends evt = reading_ends (part "message" evt) _ _ λ msg.
    reading_ends (part "usage" msg) _ _ λ u. reading_ends (as_int (get "input_tokens" u)) _ _ λ n.
      reading_ends (as_int (get "cache_read_input_tokens" u)) _ _ λ k c p h.
        let d : Converter = with_cached k (with_input n (named msg c)) in
        let r : Lives p (ensure_started d) = ensure_started-Moves d p (
          changed_Quiet (λ x. with_cached k (with_input n (named msg x)))
            (λ x. (refl, refl, refl, refl)) c p h) in
        (r.0, r.1, inl r.2)

feed_ends : (id : String) (evt : Fields) → ReplyEnds (feed id evt)
unfolding feed content_block_start content_block_delta message_delta
feed_ends id evt = if_ends (says "message_start" (get "type" evt)) _ _ (message_start_ends evt) (
    if_ends (says "content_block_start" (get "type" evt)) _ _
      (reading_ends (part "content_block" evt) _ _
        λ cb. Moves-Ends (start_block (kind_of id cb)) (start_block-Moves (kind_of id cb)))
      (if_ends (says "content_block_delta" (get "type" evt)) _ _
        (reading_ends (part "delta" evt) _ _ λ d.
          Moves-Ends (ensure_started andthen delta_op d)
            (andthen-Moves ensure_started (delta_op d) ensure_started-Moves (delta_op-Moves d)))
        (if_ends (says "content_block_stop" (get "type" evt)) _ _
          (Moves-Ends close_active_block close_active_block-Moves)
          (if_ends (says "message_delta" (get "type" evt)) _ _
            (reading_ends (part "delta" evt) _ _ λ d. reading_ends (part "usage" evt) _ _ λ u.
              reading_ends (as_int (get "output_tokens" u)) _ _ λ n c p h. (
                p,
                stays,
                inl (
                    changed_Quiet (λ x. with_output n (stopped d x)) (λ x. (refl, refl, refl, refl))
                      c p h),
              ))
            (if_ends (says "message_stop" (get "type" evt)) _ _
              (λ c p h. (ended, done-Runs c p h, inr (done_finished c, refl)))
              (Moves-Ends nothing nothing-Moves))))))

abbrev Fits : Phase → Converter × Option (List Event) → Type 0
Fits p (d, none) = Unit
Fits p (d, some es) = (q : Phase) × Runs p es q × Stands d q

returned :
    (r : Reply) (c d : Converter) (es : List Event) (p : Phase)
    → ReplyEnds r
    → Live c p
    → reply r c ≡ (d, some es)
    → (q : Phase) × Runs p es q × Stands d q
returned (returns op) c d es p h l e = subst (Fits p) e (h c p l)
returned (raises op) c d es p h l e = cc

-- The events that a call of `feed` returns, from a converter whose stream has not ended, run the
-- protocol of a response stream on from the phase of the converter to the phase of the converter after.
pub feed-Runs :
    (id : String) (evt : Fields) (c d : Converter) (es : List Event) (p : Phase)
    → Live c p
    → reply (feed id evt) c ≡ (d, some es)
    → (q : Phase) × Runs p es q × Stands d q
feed-Runs id evt c d es p l e = returned (feed id evt) c d es p (feed_ends id evt) l e
