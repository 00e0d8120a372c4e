-- ===== src/Body/Marks/Once.antt =====
-- app/body_transform.py: `apply_cache_control` marks a body once.
use zcode2api.Prelude.{◌≡◌, ◌≢◌, refl, sym, ap, ◌∙◌, true, false, Bool-cases, inl, inr}
use zcode2api.Prelude.Json
use zcode2api.Prelude.Json.{
  Json, Items, Fields, null, bool, int, float, str, arr, obj, nil, cons, get, put, is_truthy,
}
use zcode2api.Chat.{says}
use zcode2api.Chat.Effort.Valid.{get-put}
use zcode2api.Body.{ephemeral}
use zcode2api.Body.Marks.{
  Walk, passed, stopped, marked, mark_block, mark_last, mark_content, mark_fields, mark_message,
  mark_before, mark_messages, with_messages, marked_in, apply_cache_control,
}

-- How a second walk ends after a first.
abbrev settle : Walk → Walk
settle marked = stopped
settle w = w

mark_block-kept :
    (b : Fields) → is_truthy (get "cache_control" b) ≡ true → mark_block (obj b) ≡ (obj b, stopped)
mark_block-kept b e = rw e

abbrev with_mark : Fields → Fields
with_mark b = put "cache_control" ephemeral b

mark_block-set :
    (b : Fields)
    → is_truthy (get "cache_control" b) ≡ false
    → mark_block (obj b) ≡ (obj (with_mark b), marked)
mark_block-set b e = rw e

with_mark_truthy : (b : Fields) → is_truthy (get "cache_control" (with_mark b)) ≡ true
unfolding is_truthy
with_mark_truthy b = ap is_truthy (get-put "cache_control" "cache_control" ephemeral b)

-- How the second walk ends at a step whose first walk ends as `q` says.
twice :
    (f : Json → Json × Walk) (j k : Json) (w : Walk)
    → f j ≡ (k, w)
    → (f k).1 ≡ settle w
    → (f (f j).0).1 ≡ settle (f j).1
twice f j k w q h =
    ap (λ (r : Json × Walk). (f r.0).1) q ∙ h ∙ sym (ap (λ (r : Json × Walk). settle r.1) q)

block_settles : (b : Json) → (mark_block (mark_block b).0).1 ≡ settle (mark_block b).1
block_settles (obj b) = elim (Bool-cases (is_truthy (get "cache_control" b))) [
  | inl e ↦
      twice mark_block (obj b) (obj b) stopped (mark_block-kept b e)
        (ap (λ (r : Json × Walk). r.1) (mark_block-kept b e))
  | inr e ↦
      twice mark_block (obj b) (obj (with_mark b)) marked (mark_block-set b e)
        (ap (λ (r : Json × Walk). r.1) (mark_block-kept (with_mark b) (with_mark_truthy b)))
]
block_settles null = refl
block_settles (bool x) = refl
block_settles (int x) = refl
block_settles (float x) = refl
block_settles (str x) = refl
block_settles (arr x) = refl

abbrev IsCons : Items → Type 0
IsCons nil = ⊥
IsCons (cons x l) = Unit

mark_last-IsCons : (b : Json) (l : Items) → IsCons (mark_last (cons b l)).0
unfolding mark_last
mark_last-IsCons b nil = tt
mark_last-IsCons b (cons d l) = tt

tail_walk : (b : Json) (l : Items) → IsCons l → (mark_last (cons b l)).1 ≡ (mark_last l).1
unfolding mark_last
tail_walk b nil h = absurd h
tail_walk b (cons d l) h = refl

last_settles : (l : Items) → (mark_last (mark_last l).0).1 ≡ settle (mark_last l).1
unfolding mark_last
last_settles nil = refl
last_settles (cons b nil) = block_settles b
last_settles (cons b (cons d l)) =
    tail_walk b (mark_last (cons d l)).0 (mark_last-IsCons d l) ∙ last_settles (cons d l)

content_settles : (j : Json) → (mark_content (mark_content j).0).1 ≡ settle (mark_content j).1
unfolding mark_last Json.get is_truthy
content_settles (str s) = refl
content_settles (arr xs) = last_settles xs
content_settles null = refl
content_settles (bool x) = refl
content_settles (int x) = refl
content_settles (float x) = refl
content_settles (obj x) = refl

mark_fields_walk : (msg : Fields) (r : Json × Walk) → (mark_fields msg r).1 ≡ r.1
mark_fields_walk msg (c, marked) = refl
mark_fields_walk msg (c, passed) = refl
mark_fields_walk msg (c, stopped) = refl

mark_message-system :
    (msg : Fields)
    → says "system" (get "role" msg) ≡ true
    → mark_message (obj msg) ≡ (obj msg, passed)
unfolding mark_message
mark_message-system msg e = rw e

mark_message-other :
    (msg : Fields)
    → says "system" (get "role" msg) ≡ false
    → mark_message (obj msg) ≡ (
        let r : Fields × Walk = mark_fields msg (mark_content (get "content" msg)) in
        (obj r.0, r.1))
unfolding mark_message
mark_message-other msg e = rw e

fields_settle :
    (msg : Fields) (c : Json) (w : Walk)
    → says "system" (get "role" msg) ≡ false
    → mark_content (get "content" msg) ≡ (c, w)
    → (mark_message (obj (mark_fields msg (c, w)).0)).1 ≡ settle w
fields_settle msg c marked e q =
    let new : Fields = put "content" c msg in
    let role_kept : get "role" new ≡ get "role" msg = get-put "content" "role" c msg in
    let content_set : get "content" new ≡ c = get-put "content" "content" c msg in
    let second : (mark_content c).1 ≡ stopped =
      ap (λ (r : Json × Walk). (mark_content r.0).1) (sym q)
      ∙ content_settles (get "content" msg)
      ∙ ap (λ (r : Json × Walk). settle r.1) q in
    ap (λ (r : Json × Walk). r.1) (mark_message-other new (ap (says "system") role_kept ∙ e))
    ∙ mark_fields_walk new (mark_content (get "content" new))
    ∙ ap (λ j. (mark_content j).1) content_set
    ∙ second
fields_settle msg c passed e q =
    ap (λ (r : Json × Walk). r.1) (mark_message-other msg e)
    ∙ mark_fields_walk msg (mark_content (get "content" msg))
    ∙ ap (λ (r : Json × Walk). r.1) q
fields_settle msg c stopped e q =
    ap (λ (r : Json × Walk). r.1) (mark_message-other msg e)
    ∙ mark_fields_walk msg (mark_content (get "content" msg))
    ∙ ap (λ (r : Json × Walk). r.1) q

message_settles : (m : Json) → (mark_message (mark_message m).0).1 ≡ settle (mark_message m).1
unfolding mark_message
message_settles (obj msg) = elim (Bool-cases (says "system" (get "role" msg))) [
  | inl e ↦
      twice mark_message (obj msg) (obj msg) passed (mark_message-system msg e)
        (ap (λ (r : Json × Walk). r.1) (mark_message-system msg e))
  | inr e ↦
      let r : Json × Walk = mark_content (get "content" msg) in
      let f : Fields × Walk = mark_fields msg r in
      twice mark_message (obj msg) (obj f.0) f.1 (mark_message-other msg e)
        (fields_settle msg r.0 r.1 e refl ∙ ap settle (sym (mark_fields_walk msg r)))
]
message_settles null = refl
message_settles (bool x) = refl
message_settles (int x) = refl
message_settles (float x) = refl
message_settles (str x) = refl
message_settles (arr x) = refl

before_passed :
    (m : Json) (r : Items × Walk) → r.1 ≡ passed → (mark_before m r).1 ≡ (mark_message m).1
before_passed m (l, passed) h = refl
before_passed m (l, stopped) h = absurd (cc)
before_passed m (l, marked) h = absurd (cc)

before_stopped : (m : Json) (r : Items × Walk) → r.1 ≡ stopped → (mark_before m r).1 ≡ stopped
before_stopped m (l, passed) h = absurd (cc)
before_stopped m (l, stopped) h = refl
before_stopped m (l, marked) h = absurd (cc)

before_settles :
    (m : Json) (r : Items × Walk)
    → (mark_messages r.0).1 ≡ settle r.1
    → (mark_messages (mark_before m r).0).1 ≡ settle (mark_before m r).1
unfolding mark_messages
before_settles m (l, passed) h =
    before_passed (mark_message m).0 (mark_messages l) h ∙ message_settles m
before_settles m (l, stopped) h = before_stopped m (mark_messages l) h
before_settles m (l, marked) h = before_stopped m (mark_messages l) h

messages_settle : (l : Items) → (mark_messages (mark_messages l).0).1 ≡ settle (mark_messages l).1
unfolding mark_messages
messages_settle nil = refl
messages_settle (cons m l) = before_settles m (mark_messages l) (messages_settle l)

unmarked : (body : Fields) (r : Items × Walk) → r.1 ≢ marked → with_messages body r ≡ (body, false)
unmarked body (l, passed) h = refl
unmarked body (l, stopped) h = refl
unmarked body (l, marked) h = absurd (h refl)

settle-ne-marked : (w : Walk) → settle w ≢ marked
settle-ne-marked passed h = cc
settle-ne-marked stopped h = cc
settle-ne-marked marked h = cc

again :
    (body : Fields) (l : Items) (r : Items × Walk)
    → get "messages" body ≡ arr l
    → mark_messages l ≡ r
    → apply_cache_control (with_messages body r).0 ≡ ((with_messages body r).0, false)
unfolding apply_cache_control
again body l (m, marked) e q =
    let new : Fields = put "messages" (arr m) body in
    let second : (mark_messages m).1 ≡ stopped =
      ap (λ (r : Items × Walk). (mark_messages r.0).1) (sym q)
      ∙ messages_settle l
      ∙ ap (λ (r : Items × Walk). settle r.1) q in
    ap (marked_in new) (get-put "messages" "messages" (arr m) body)
    ∙ unmarked new (mark_messages m) (λ h. settle-ne-marked marked (sym second ∙ h))
again body l (m, passed) e q = ap (marked_in body) e ∙ ap (with_messages body) q
again body l (m, stopped) e q = ap (marked_in body) e ∙ ap (with_messages body) q

at_messages :
    (body : Fields) (j : Json)
    → get "messages" body ≡ j
    → apply_cache_control (marked_in body j).0 ≡ ((marked_in body j).0, false)
unfolding apply_cache_control
at_messages body (arr l) e = again body l (mark_messages l) e refl
at_messages body null e = ap (marked_in body) e
at_messages body (bool x) e = ap (marked_in body) e
at_messages body (int x) e = ap (marked_in body) e
at_messages body (float x) e = ap (marked_in body) e
at_messages body (str x) e = ap (marked_in body) e
at_messages body (obj x) e = ap (marked_in body) e

-- Marking a body a second time changes nothing and says so, whatever the body holds.
pub apply_cache_control_twice :
    (body : Fields)
    → apply_cache_control (apply_cache_control body).0 ≡ ((apply_cache_control body).0, false)
unfolding apply_cache_control
apply_cache_control_twice body = at_messages body (get "messages" body) refl
