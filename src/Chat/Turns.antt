-- ===== src/Chat/Turns.antt =====
-- app/openai_compat.py: the messages of a chat request as turns of the messages protocol. `loads` is
-- `json.loads` of a text, `none` where it raises; another `none` is an exception that leaves the function.
use zcode2api.Prelude.{
  String, Option, none, some, List, [], ◌∷◌, ◌++◌, if◌then◌else◌, nonempty, strip, ◌>>=◌, ◌||◌,
}
use zcode2api.Prelude.Json.{
  Json, Fields, str, arr, obj, end, get, object, items, or_json, show, as_str, as_obj,
}
use zcode2api.Chat.{says, text_of, collect, iterated, text_from_content, text_block, image_block}

-- `url = item.get("image_url") or {}`, and its own `url` where it is an object; then `str(url)`.
abbrev url_text : Json → String
url_text (obj fs) = show (or_json (get "url" fs) (str ""))
url_text j = show j

abbrev user_block : Json → Option Json
user_block item = elim (as_obj item) [
  | none ↦ none
  | some fs ↦ elim (if says "text" (get "type" fs) then as_str (get "text" fs) else none) [
    | some s ↦ some (text_block s)
    | none ↦
        if says "image_url" (get "type" fs)
        then image_block (url_text (or_json (get "image_url" fs) (obj end)))
        else none
  ]
]

abbrev pub or_blank : List Json → List Json
or_blank [] = text_block "" ∷ []
or_blank (b ∷ l) = b ∷ l

-- `_blocks_from_user_content`
unfoldable pub blocks_from_user_content : Json → List Json
blocks_from_user_content (str s) = text_block s ∷ []
blocks_from_user_content (arr xs) = or_blank (collect user_block (items xs))
blocks_from_user_content _ = text_block "" ∷ []

-- What a message gives: nothing, a text for the system prompt, or a message of a role.
pub data Turn : Type 0 where
  skipped : Turn
  instruction : String → Turn
  turn : String → List Json → Turn

module _ (loads : String → Option Json) where
  -- The arguments of a call: a text is parsed, and kept raw where it is no JSON.
  abbrev parsed : Json → Json
  parsed (str s) = elim (loads s) [ none ↦ object (("_raw", str s) ∷ []) | some j ↦ j ]
  parsed j = j

  abbrev as_input : Json → Json
  as_input (obj fs) = obj fs
  as_input _ = object []

  abbrev tool_use : Json → Option Json
  tool_use tc = elim (as_obj tc) [
    | none ↦ none
    | some call ↦ elim (as_obj (or_json (get "function" call) (obj end))) [
      | none ↦ none
      | some fn ↦ some (
          object (
            ("type", str "tool_use")
            ∷ ("id", str (text_of (get "id" call)))
            ∷ ("name", str (text_of (get "name" fn)))
            ∷ ("input", as_input (parsed (get "arguments" fn)))
            ∷ []))
    ]
  ]

  abbrev pub thinking_blocks : Json → List Json
  thinking_blocks (str s) =
      if nonempty (strip s)
      then object (("type", str "thinking") ∷ ("thinking", str s) ∷ []) ∷ []
      else []
  thinking_blocks _ = []

  abbrev text_blocks : String → List Json
  text_blocks s = if nonempty s then text_block s ∷ [] else []

  unfoldable pub assistant_blocks : Fields → Option (List Json)
  assistant_blocks msg = do
    calls ← iterated (get "tool_calls" msg)
    some (
        or_blank (
          thinking_blocks (get "reasoning_content" msg)
          ++ (text_blocks (text_from_content (get "content" msg)) ++ collect tool_use calls)))

  abbrev instructed : String → Turn
  instructed s = if nonempty s then instruction s else skipped

  abbrev tool_result : Fields → Json
  tool_result msg = object (
      ("type", str "tool_result")
      ∷ ("tool_use_id", str (text_of (get "tool_call_id" msg)))
      ∷ ("content", str (text_from_content (get "content" msg)))
      ∷ [])

  -- One round of the loop over the messages.
  unfoldable pub turn_of : Json → Option Turn
  unfolding assistant_blocks
  turn_of (obj msg) =
      let role = get "role" msg in
      if says "system" role || says "developer" role
      then some (instructed (text_from_content (get "content" msg)))
      else if says "tool" role
      then some (turn "user" (tool_result msg ∷ []))
      else if says "assistant" role
      then (assistant_blocks msg >>= λ blocks. some (turn "assistant" blocks))
      else some (turn "user" (blocks_from_user_content (get "content" msg)))
  turn_of _ = some skipped

  unfoldable pub turns : List Json → Option (List Turn)
  turns [] = some []
  turns (m ∷ l) = let rest = turns l in turn_of m >>= λ t. rest >>= λ ts. some (t ∷ ts)
