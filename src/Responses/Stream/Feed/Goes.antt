-- ===== src/Responses/Stream/Feed/Goes.antt =====
-- app/responses_compat.py: only `done` and `fail` end a stream; `feed` does so at `message_stop`.
use mathlib.Core.Path.{subst}
use zcode2api.Prelude.{
  ◌≡◌, ◌⊎◌, inl, inr, refl, sym, ◌∙◌, String, true, false, Option, none, some, List, [], ◌∷◌, ◌++◌,
  Bool, if◌then◌else◌, All,
}
use zcode2api.Prelude.Json.{Json, Fields, get}
use zcode2api.Prelude.Number.{as_int}
use zcode2api.Chat.{part, says}
use zcode2api.Responses.Stream.{
  Op, Event, Converter, change, nothing, ◌andthen◌, emit, ensure_started, close_active_block,
}
use zcode2api.Responses.Stream.Deltas.{kind_of, start_block}
use zcode2api.Responses.Stream.Feed.{
  Reply, returns, raises, message_start, content_block_start, delta_op, content_block_delta,
  message_delta, finish, done, is_incomplete, done_type, final_response, failed_response, reading,
  named, with_input, with_cached, with_output, stopped, fail, feed,
}
use zcode2api.Responses.Stream.Feed.Ends.{finish_open, done_finished}
use zcode2api.Responses.Stream.Feed.Quiet.{
  ends_with, is_last, NotLast, Quiet, andthen-Quiet, ensure_started-Quiet, close_active_block-Quiet,
  closed-Quiet, start_block-Quiet, delta_op-Quiet,
}

-- Exactly one event ends the stream, and it is the last.
abbrev pub Ends : List Event → Type 0
Ends [] = ⊥
Ends (e ∷ es) = ((is_last e ≡ true) × (es ≡ [])) ⊎ ((is_last e ≡ false) × Ends es)

pub Ends-append : (es fs : List Event) → All NotLast es → Ends fs → Ends (es ++ fs)
Ends-append [] fs h g = g
Ends-append (e ∷ es) fs h g = inr (h.0, Ends-append es fs h.1 g)

-- What is emitted goes on and leaves the converter unfinished, or ends the stream and finishes it.
abbrev pub Going : Converter × List Event → Type 0
Going r = (All NotLast r.1 × (r.0.finished ≡ false)) ⊎ (Ends r.1 × (r.0.finished ≡ true))

Goes : Op → Type 0
Goes op = (c : Converter) → c.finished ≡ false → Going (op c)

Quiet-Goes : (op : Op) → Quiet op → Goes op
unfolding Goes
Quiet-Goes op h c e = inl ((h c).0, (h c).1 ∙ e)

finish-Ends :
    (t : Converter → String) (r : Converter → Json) (c : Converter)
    → ((d : Converter) → ends_with (t d) ≡ true)
    → c.finished ≡ false
    → Ends (finish t r c).1
unfolding emit
finish-Ends t r c h e =
    subst (λ x. Ends x.1) (sym (finish_open t r c e))
      (Ends-append ((ensure_started andthen close_active_block) c).1 _ (closed-Quiet c).0
        (inl (h _, refl)))

done_type_ends : (c : Converter) → ends_with (done_type c) ≡ true
done_type_ends c =
    elim (is_incomplete c)
      as (λ b. ends_with (if b then "response.incomplete" else "response.completed") ≡ true) [
        | true ↦ refl
        | false ↦ refl
      ]

pub done-Ends : (c : Converter) → c.finished ≡ false → Ends (done c).1
unfolding done
done-Ends c e = finish-Ends done_type final_response c done_type_ends e

pub fail-Ends :
    (message code : String) (c : Converter) → c.finished ≡ false → Ends (fail message code c).1
unfolding fail
fail-Ends message code c e =
    finish-Ends (λ d. "response.failed") (failed_response message code) c (λ d. refl) e

done-Goes : Goes done
unfolding Goes
done-Goes c e = inr (done-Ends c e, done_finished c)

-- A call that raises leaves the converter unfinished.
abbrev pub ReplyGoes : Reply → Type 0
ReplyGoes (returns op) = (c : Converter) → c.finished ≡ false → Going (op c)
ReplyGoes (raises op) = (c : Converter) → c.finished ≡ false → (op c).0.finished ≡ false

reading_goes {ℓ} :
    {A : Type ℓ} (o : Option A) (before : Op) (f : A → Reply)
    → Quiet before
    → ((a : A) → ReplyGoes (f a))
    → ReplyGoes (reading o before f)
reading_goes none before f q h = λ c e. (q c).1 ∙ e
reading_goes (some a) before f q h = h a

Quiet-reply : (op : Op) → Quiet op → ReplyGoes (returns op)
unfolding Goes
Quiet-reply op h = Quiet-Goes op h

if_reply : (b : Bool) (x y : Reply) → ReplyGoes x → ReplyGoes y → ReplyGoes (if b then x else y)
if_reply true x y hx hy = hx
if_reply false x y hx hy = hy

message_start_goes : (evt : Fields) → ReplyGoes (message_start evt)
unfolding message_start
message_start_goes evt =
    reading_goes (part "message" evt) _ _ (λ c. (tt, refl))
      λ msg.
        reading_goes (part "usage" msg) _ _ (λ c. (tt, refl))
          λ u.
            reading_goes (as_int (get "input_tokens" u)) _ _ (λ c. (tt, refl))
              λ n.
                reading_goes (as_int (get "cache_read_input_tokens" u)) _ _ (λ c. (tt, refl))
                  λ k.
                    Quiet-reply
                      (change (λ c. with_cached k (with_input n (named msg c)))
                        andthen ensure_started)
                      (λ c. ensure_started-Quiet (with_cached k (with_input n (named msg c))))

content_block_start_goes :
    (fresh : String) (evt : Fields) → ReplyGoes (content_block_start fresh evt)
unfolding content_block_start
content_block_start_goes fresh evt =
    reading_goes (part "content_block" evt) _ _ closed-Quiet
      λ cb. Quiet-reply (start_block (kind_of fresh cb)) (start_block-Quiet (kind_of fresh cb))

content_block_delta_goes : (evt : Fields) → ReplyGoes (content_block_delta evt)
unfolding content_block_delta
content_block_delta_goes evt = reading_goes (part "delta" evt) _ _ ensure_started-Quiet λ delta.
    Quiet-reply (ensure_started andthen delta_op delta)
      (andthen-Quiet ensure_started (delta_op delta) ensure_started-Quiet (delta_op-Quiet delta))

message_delta_goes : (evt : Fields) → ReplyGoes (message_delta evt)
unfolding message_delta
message_delta_goes evt =
    reading_goes (part "delta" evt) _ _ (λ c. (tt, refl))
      λ delta.
        reading_goes (part "usage" evt) _ _ (λ c. (tt, refl))
          λ u.
            reading_goes (as_int (get "output_tokens" u)) _ _ (λ c. (tt, refl))
              λ n. Quiet-reply (change (λ c. with_output n (stopped delta c))) (λ c. (tt, refl))

done_reply : ReplyGoes (returns done)
unfolding Goes
done_reply = done-Goes

pub feed_goes : (fresh : String) (evt : Fields) → ReplyGoes (feed fresh evt)
unfolding feed
feed_goes fresh evt =
    if_reply (says "message_start" (get "type" evt)) _ _ (message_start_goes evt) (
      if_reply (says "content_block_start" (get "type" evt)) _ _
        (content_block_start_goes fresh evt)
        (if_reply (says "content_block_delta" (get "type" evt)) _ _ (content_block_delta_goes evt) (
          if_reply (says "content_block_stop" (get "type" evt)) _ _
            (Quiet-reply close_active_block close_active_block-Quiet)
            (if_reply (says "message_delta" (get "type" evt)) _ _ (message_delta_goes evt) (
              if_reply (says "message_stop" (get "type" evt)) _ _ done_reply
                (Quiet-reply nothing (λ c. (tt, refl))))))))
