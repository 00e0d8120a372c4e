-- ===== src/Chat.antt =====
-- app/openai_compat.py: what both protocol conversions share. `part` is the reading
-- `x.get(k) or {}` of the program, whose next `.get` raises where the value is truthy and no object.
pub mod Effort
pub mod Turns
pub mod Request
pub mod Answer
pub mod Stream
mod Tests
use zcode2api.Prelude.{
  String, Bool, true, false, Option, none, some, List, [], ◌∷◌, if◌then◌else◌, str_eq, nonempty,
  starts, text_or, lower, ◌&&◌, keep_if, joined, before, after, drop_chars,
}
use zcode2api.Prelude.Json
use zcode2api.Prelude.Json.{
  Json, Items, Fields, null, bool, int, float, str, arr, obj, end, field, get, object, items,
  is_truthy, get_in, or_json, show, as_str,
}

-- `x.get(k) or {}`, on which `.get` is called next; `none` is the AttributeError.
unfoldable pub part : String → Fields → Option Fields
part k fs = elim (or_json (get k fs) (obj end)) [ obj gs ↦ some gs | _ ↦ none ]

-- `x == "…"`
abbrev pub says : String → Json → Bool
says t (str s) = str_eq s t
says t _ = false

-- `str(x or "")`
abbrev pub text_of : Json → String
text_of j = if is_truthy j then show j else ""

-- `_response_model`
unfoldable pub response_model : Json → String → String
response_model reported requested =
    let name = if is_truthy reported then show reported else requested in
    if str_eq (lower name) (lower requested) then requested else name

-- `[x for x in l if …]` with a value for each that stays.
abbrev pub collect {ℓ κ} : {A : Type ℓ} {B : Type κ} → (A → Option B) → List A → List B
collect f [] = []
collect f (x ∷ l) = let rest = collect f l in elim (f x) [ none ↦ rest | some y ↦ y ∷ rest ]

keys : Fields → List Json
keys end = []
keys (field k v fs) = str k ∷ keys fs

letters : String → List Json
letters String.[] = []
letters (String.◌∷◌ c s) = str (String.◌∷◌ c "") ∷ letters s

-- `for x in (j or [])`: an object gives its keys and a text its characters; a number raises.
unfoldable pub iterated : Json → Option (List Json)
unfolding keys letters
iterated (arr xs) = some (items xs)
iterated (obj fs) = some (keys fs)
iterated (str s) = some (letters s)
iterated j = if is_truthy j then none else some []

abbrev pub nonempty_texts : List String → List String
nonempty_texts l = keep_if nonempty l

abbrev text_item : Json → Option String
text_item j = if says "text" (get_in "type" j) then as_str (get_in "text" j) else none

-- `_text_from_content`
unfoldable pub text_from_content : Json → String
text_from_content (str s) = s
text_from_content (arr xs) = joined "\n" (nonempty_texts (collect text_item (items xs)))
text_from_content _ = ""

abbrev pub text_block : String → Json
text_block s = object (("type", str "text") ∷ ("text", str s) ∷ [])

-- `_image_block`
unfoldable pub image_block : String → Option Json
image_block url =
    if starts "data:" url && nonempty (after 44 url)
    then some (
        object (
          ("type", str "image")
          ∷ (
            "source",
            object (
                ("type", str "base64")
                ∷ (
                  "media_type",
                  str (text_or (before 59 (drop_chars 5 (before 44 url))) "image/png"),
                )
                ∷ ("data", str (after 44 url))
                ∷ []),
          )
          ∷ []))
    else none

-- `_STOP_REASON_MAP.get(x, "stop")`; a list or an object is no key and raises.
unfoldable pub finish_reason : Json → Option String
finish_reason (arr xs) = none
finish_reason (obj fs) = none
finish_reason j =
    some
      (if says "max_tokens" j then "length" else if says "tool_use" j then "tool_calls" else "stop")
