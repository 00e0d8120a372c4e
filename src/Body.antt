-- ===== src/Body.antt =====
-- app/body_transform.py: what the gateway writes into a body before it goes upstream. `official` are the
-- blocks of `zcode_system.json`, `loads` is `json.loads` of a text, `uuid5` the name-based identifier.
-- A function that returns a flag gives it beside the body.
pub mod Marks
pub mod Twice
mod Tests
use zcode2api.Prelude.{
  String, Bool, true, false, Option, none, some, List, [], ◌∷◌, ◌++◌, if◌then◌else◌, str_eq,
  nonempty, strip, truthy, opt_text, starts, joined, prefix_of, concat, not, ◌&&◌, ◌||◌,
}
use zcode2api.Prelude.Dumps.{dumps, compact}
use zcode2api.Prelude.Json
use zcode2api.Prelude.Json.{
  Json, Items, Fields, null, bool, str, arr, obj, nil, cons, end, field, get, has, put, remove,
  object, array, items, is_truthy, get_in, as_str, as_obj,
}
use zcode2api.Chat.{says, collect, text_block}

abbrev pub ephemeral : Json
ephemeral = object (("type", str "ephemeral") ∷ [])

-- A text that is not blank.
abbrev filled : Json → Option String
filled (str s) = if nonempty (strip s) then some s else none
filled _ = none

abbrev kept_cache : Json → List (String × Json)
kept_cache (obj cc) = ("cache_control", obj cc) ∷ []
kept_cache _ = []

abbrev system_block : Json → Option Json
system_block (obj item) =
    elim (if says "text" (get "type" item) then filled (get "text" item) else none) [
      | none ↦ none
      | some s ↦
          some (
            object (("type", str "text") ∷ ("text", str s) ∷ kept_cache (get "cache_control" item)))
    ]
system_block j = elim (filled j) [ none ↦ none | some s ↦ some (text_block s) ]

-- `_normalize_user_system`
unfoldable pub normalize_user_system : Json → List Json
normalize_user_system (str s) = if nonempty (strip s) then text_block s ∷ [] else []
normalize_user_system (arr xs) = collect system_block (items xs)
normalize_user_system _ = []

-- `x == y` of the texts of two blocks; either may be missing.
abbrev pub same_text : Json → Json → Bool
same_text (str s) (str t) = str_eq s t
same_text null null = true
same_text _ _ = false

abbrev pub begins_official : Json → Json → Bool
begins_official official (arr (cons (obj first) rest)) =
    same_text (get "text" first) (get_in "text" official)
begins_official official _ = false

abbrev model_block : Option String → List Json
model_block model =
    if nonempty (strip (opt_text model))
    then object (
        ("type", str "text")
        ∷ (
          "text",
          str (concat ("- You are powered by the model named " ∷ opt_text model ∷ "." ∷ [])),
        )
        ∷ ("cache_control", ephemeral)
        ∷ [])
      ∷ []
    else []

abbrev pub with_official : Json → List Json → Option String → Json → Json
with_official first official model existing =
    array (first ∷ (official ++ (model_block model ++ normalize_user_system existing)))

-- `apply_start_plan_system`
unfoldable pub apply_start_plan_system : List Json → Option String → Fields → Fields × Bool
apply_start_plan_system [] model body = (body, false)
apply_start_plan_system (first ∷ official) model body =
    let existing = get "system" body in
    if begins_official first existing
    then (body, false)
    else (put "system" (with_official first official model existing) body, true)

-- `_extract_conversation_seed`: the text of the first message that has one, cut short.
abbrev block_text : Json → Option String
block_text (str s) = if nonempty (strip s) then some (strip s) else none
block_text (obj b) = elim (filled (get "text" b)) [ none ↦ none | some s ↦ some (strip s) ]
block_text _ = none

abbrev joined_parts : List String → Option String
joined_parts [] = none
joined_parts (s ∷ l) = some (prefix_of 512 (joined " " (s ∷ l)))

abbrev content_seed : Json → Option String
content_seed (str s) = if nonempty (strip s) then some (prefix_of 512 (strip s)) else none
content_seed (arr xs) = joined_parts (collect block_text (items xs))
content_seed _ = none

abbrev message_seed : Json → Option String
message_seed (obj msg) =
    if says "system" (get "role" msg) then none else content_seed (get "content" msg)
message_seed _ = none

abbrev first_seed : List Json → String
first_seed [] = ""
first_seed (m ∷ l) = let rest = first_seed l in elim (message_seed m) [ none ↦ rest | some s ↦ s ]

unfoldable pub extract_conversation_seed : Json → String
extract_conversation_seed (arr xs) = first_seed (items xs)
extract_conversation_seed _ = ""

abbrev text_in : String → Json → String
text_in k (obj fs) = strip (opt_text (as_str (get k fs)))
text_in k _ = ""

module _ (loads : String → Option Json) (uuid5 : String → String) where
  -- The session that the client's `user_id` holds: a field of its JSON, or itself.
  abbrev session_in_user : Json → String
  session_in_user (str s) =
      if starts "{" (strip s)
      then elim (loads s) [ none ↦ "" | some j ↦ text_in "session_id" j ]
      else strip s
  session_in_user _ = ""

  abbrev own_session : Json → String
  own_session (obj meta) =
      if nonempty (text_in "session_id" (obj meta))
      then text_in "session_id" (obj meta)
      else session_in_user (get "user_id" meta)
  own_session _ = ""

  abbrev derived : String → Option String → String → String
  derived device user seed = uuid5 (
      concat (
        device
        ∷ ":"
        ∷ (if truthy user then opt_text user else "anon")
        ∷ (if nonempty (strip seed) then ":" ∷ strip seed ∷ [] else [])))

  -- `format_metadata_user_id`
  unfoldable pub format_metadata_user_id :
      Option String → Option String → Json → String → Option String
  format_metadata_user_id device user existing seed =
      let eff_device = strip (opt_text device) in
      let own = own_session existing in
      let session = if nonempty own then own else derived eff_device user seed in
      if nonempty eff_device
      then some (
          dumps compact (
            object (
              ("device_id", str eff_device)
              ∷ ("account_uuid", str "")
              ∷ ("session_id", str session)
              ∷ [])))
      else user

abbrev pub meta_fields : Json → Fields
meta_fields (obj fs) = fs
meta_fields _ = end

abbrev pub has_user : String → Json → Bool
has_user user (obj fs) = says user (get "user_id" fs) && not (has "session_id" fs)
has_user user _ = false

abbrev pub with_user : String → Json → Json
with_user user existing =
    obj (put "user_id" (str user) (remove "session_id" (meta_fields existing)))

-- `apply_user_id`
unfoldable pub apply_user_id : String → Fields → Fields × Bool
apply_user_id user body =
    let existing = get "metadata" body in
    if has_user user existing
    then (body, false)
    else (put "metadata" (with_user user existing) body, true)
