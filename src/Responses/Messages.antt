-- ===== src/Responses/Messages.antt =====
-- app/responses_compat.py: the messages of a request: how blocks are appended to them, and how
-- `_coalesce_non_empty_messages` cleans and joins them.
pub mod Coalesced
pub mod Loop
use zcode2api.Prelude.{
  String, Bool, true, false, List, [], ◌∷◌, ◌++◌, if◌then◌else◌, str_eq, not, ◌&&◌, ◌||◌, is_empty,
  keep_if,
}
use zcode2api.Prelude.Json.{Json, is_obj, get_in}
use zcode2api.Chat.{says}

pub record Message : Type 0 where
  pub role : String
  pub content : List Json

abbrev joined_to : Message → List Json → Message
joined_to m blocks = record m { content = m.content ++ blocks }

abbrev add_last : String → List Json → List Message → List Message
add_last role blocks [] = record { role = role; content = blocks } ∷ []
add_last role blocks (m ∷ []) =
    if str_eq m.role role
    then joined_to m blocks ∷ []
    else m ∷ (record { role = role; content = blocks } ∷ [])
add_last role blocks (m ∷ (n ∷ l)) = m ∷ add_last role blocks (n ∷ l)

-- `_append`: blocks join the last message where its role is theirs.
unfoldable pub append_blocks : String → List Json → List Message → List Message
append_blocks role [] msgs = msgs
append_blocks role (b ∷ l) msgs = add_last role (b ∷ l) msgs

abbrev pub is_result : Json → Bool
is_result b = says "tool_result" (get_in "type" b)

abbrev pub is_other : Json → Bool
is_other b = not (is_result b)

abbrev pub is_user : String → Bool
is_user role = str_eq role "user"

-- The results of tools first, in a message of the user.
unfoldable pub arranged : String → List Json → List Json
arranged role blocks =
    if is_user role then keep_if is_result blocks ++ keep_if is_other blocks else blocks

unfoldable pub merged : String → List Json → List Json → List Json
merged role old blocks =
    if is_user role
    then (keep_if is_result old ++ keep_if is_result blocks)
      ++ (keep_if is_other old ++ keep_if is_other blocks)
    else old ++ blocks

-- A message that is kept joins the last one where the roles agree.
unfoldable pub merge_last : String → List Json → List Message → List Message
unfolding arranged merged
merge_last role blocks [] = record { role = role; content = arranged role blocks } ∷ []
merge_last role blocks (m ∷ []) =
    if str_eq m.role role
    then record m { content = merged role m.content blocks } ∷ []
    else m ∷ (record { role = role; content = arranged role blocks } ∷ [])
merge_last role blocks (m ∷ (n ∷ l)) = m ∷ merge_last role blocks (n ∷ l)

abbrev pub known_role : String → Bool
known_role role = str_eq role "user" || str_eq role "assistant"

abbrev pub blocks_of : Message → List Json
blocks_of m = keep_if is_obj m.content

-- One round: a message without blocks, or of another role, is left out.
unfoldable pub absorb : List Message → Message → List Message
unfolding merge_last
absorb cleaned m =
    if is_empty (blocks_of m) || not (known_role m.role)
    then cleaned
    else merge_last m.role (blocks_of m) cleaned

unfoldable pub coalesce_from : List Message → List Message → List Message
coalesce_from cleaned [] = cleaned
coalesce_from cleaned (m ∷ l) = coalesce_from (absorb cleaned m) l

-- `_coalesce_non_empty_messages`
unfoldable pub coalesce : List Message → List Message
unfolding coalesce_from
coalesce raw = coalesce_from [] raw
