-- ===== src/Body/Marks.antt =====
-- app/body_transform.py: `apply_cache_control`, which marks the last block of the last message that is not
-- the system's, and `transform_body`, which does all three.
pub mod Once
use zcode2api.Prelude.{
  String, Bool, true, false, Option, none, some, List, [], ◌∷◌, if◌then◌else◌, truthy, ◌&&◌,
}
use zcode2api.Prelude.Json
use zcode2api.Prelude.Json.{
  Json, Items, Fields, str, arr, obj, nil, cons, get, put, object, array, is_truthy,
}
use zcode2api.Chat.{says}
use zcode2api.Body.{
  ephemeral, apply_start_plan_system, extract_conversation_seed, format_metadata_user_id,
  apply_user_id,
}

-- How the walk from the last message back goes on: it passes a message over, or ends there.
pub data Walk : Type 0 where
  passed stopped marked : Walk

abbrev marked_text : String → Json
marked_text s = object (("type", str "text") ∷ ("text", str s) ∷ ("cache_control", ephemeral) ∷ [])

abbrev mark_block : Json → Json × Walk
mark_block (obj b) =
    if is_truthy (get "cache_control" b)
    then (obj b, stopped)
    else (obj (put "cache_control" ephemeral b), marked)
mark_block b = (b, stopped)

-- The last block of a content.
unfoldable pub mark_last : Items → Items × Walk
mark_last nil = (nil, stopped)
mark_last (cons b nil) = let (c, w) = mark_block b in (cons c nil, w)
mark_last (cons b (cons d l)) = let (m, w) = mark_last (cons d l) in (cons b m, w)

abbrev pub mark_content : Json → Json × Walk
mark_content (str s) = (arr (cons (marked_text s) nil), marked)
mark_content (arr xs) = let (ys, w) = mark_last xs in (arr ys, w)
mark_content j = (j, stopped)

-- A content is written back only where it was marked.
abbrev pub mark_fields : Fields → Json × Walk → Fields × Walk
mark_fields msg (content, marked) = (put "content" content msg, marked)
mark_fields msg (content, w) = (msg, w)

unfoldable pub mark_message : Json → Json × Walk
unfolding mark_last
mark_message (obj msg) =
    if says "system" (get "role" msg)
    then (obj msg, passed)
    else (let (fs, w) = mark_fields msg (mark_content (get "content" msg)) in (obj fs, w))
mark_message j = (j, passed)

abbrev pub mark_before : Json → Items × Walk → Items × Walk
mark_before m (l, passed) = let (n, w) = mark_message m in (cons n l, w)
mark_before m (l, w) = (cons m l, w)

unfoldable pub mark_messages : Items → Items × Walk
unfolding mark_message
mark_messages nil = (nil, passed)
mark_messages (cons m l) = mark_before m (mark_messages l)

abbrev pub with_messages : Fields → Items × Walk → Fields × Bool
with_messages body (l, marked) = (put "messages" (arr l) body, true)
with_messages body (l, w) = (body, false)

abbrev pub marked_in : Fields → Json → Fields × Bool
marked_in body (arr xs) = with_messages body (mark_messages xs)
marked_in body _ = (body, false)

-- `apply_cache_control`
unfoldable pub apply_cache_control : Fields → Fields × Bool
unfolding mark_messages
apply_cache_control body = marked_in body (get "messages" body)

module _ (official : List Json) (loads : String → Option Json) (uuid5 : String → String) where
  abbrev pub named : Option String → Fields → Fields
  named none body = body
  named (some user) body = if truthy (some user) then (apply_user_id user body).0 else body

  -- `transform_body`
  unfoldable pub transform_body : Option String → Option String → Option String → Fields → Fields
  transform_body user model device body =
      let marked = (apply_cache_control (apply_start_plan_system official model body).0).0 in
      let seed = extract_conversation_seed (get "messages" marked) in
      let target =
        if truthy device
        then format_metadata_user_id loads uuid5 device user (get "metadata" marked) seed
        else user in
      named target marked
