-- ===== src/Responses/Stream/Phase.antt =====
-- The protocol of a response stream, apart from how the converter keeps its state: which events may
-- follow which, and what their fields must say.
use zcode2api.Prelude.{
  ◌≡◌, refl, ◌⊎◌, String, List, [], ◌∷◌, ◌++◌, Option, none, some, length, concat, pos,
}
use zcode2api.Prelude.Json.{Json, int, str, arr, null, cons, get, get_in, fields, array}
use zcode2api.Responses.Stream.{Event}

pub data ItemKind : Type 0 where
  reasoning message function_call : ItemKind

abbrev pub item_type : ItemKind → String
item_type reasoning = "reasoning"
item_type message = "message"
item_type function_call = "function_call"

-- Only an item with parts announces its part; a function call has none.
abbrev pub part_added : ItemKind → Option String
part_added reasoning = some "response.reasoning_summary_part.added"
part_added message = some "response.content_part.added"
part_added function_call = none

abbrev pub delta_type : ItemKind → String
delta_type reasoning = "response.reasoning_summary_text.delta"
delta_type message = "response.output_text.delta"
delta_type function_call = "response.function_call_arguments.delta"

abbrev pub text_done : ItemKind → String
text_done reasoning = "response.reasoning_summary_text.done"
text_done message = "response.output_text.done"
text_done function_call = "response.function_call_arguments.done"

abbrev pub text_key : ItemKind → String
text_key reasoning = "text"
text_key message = "text"
text_key function_call = "arguments"

abbrev pub part_done : ItemKind → Option String
part_done reasoning = some "response.reasoning_summary_part.done"
part_done message = some "response.content_part.done"
part_done function_call = none

abbrev pub first_item : Json → Json
first_item (arr (cons x xs)) = x
first_item _ = null

-- The text that a finished item carries.
abbrev pub item_text : ItemKind → Json → Json
item_text reasoning item = get_in "text" (first_item (get_in "summary" item))
item_text message item = get_in "text" (first_item (get_in "content" item))
item_text function_call item = get_in "arguments" item

-- Where a stream stands: the items that are done, and the open item with its text so far.
pub data Phase : Type 0 where
  fresh announced ended : Phase
  idle : List Json → Phase
  added : ItemKind → String → List Json → Phase
  writing : ItemKind → String → List Json → String → Phase
  written : ItemKind → String → List Json → String → Phase
  parted : ItemKind → String → List Json → String → Phase

-- A field of an event.
abbrev pub says_of : Event → String → Json
says_of e k = get k (fields e.payload)

-- The event is about the item at the end of the items that are done.
abbrev pub About : Event → String → List Json → Type 0
About e id items =
    (says_of e "item_id" ≡ str id) × (says_of e "output_index" ≡ int (pos (length items)))

abbrev pub IsItem : ItemKind → String → Json → Type 0
IsItem k id item = (get_in "id" item ≡ str id) × (get_in "type" item ≡ str (item_type k))

-- The event that ends a stream lists the items that were done.
abbrev pub IsLast : Event → Type 0
IsLast e =
    (e.event_type ≡ "response.completed")
    ⊎ ((e.event_type ≡ "response.incomplete") ⊎ (e.event_type ≡ "response.failed"))

pub data Step : Phase → Event → Phase → Type 0 where
  creates : (e : Event) → e.event_type ≡ "response.created" → Step fresh e announced
  progresses : (e : Event) → e.event_type ≡ "response.in_progress" → Step announced e (idle [])
  adds :
      (e : Event) (k : ItemKind) (id : String) (items : List Json)
      → e.event_type ≡ "response.output_item.added"
      → says_of e "output_index" ≡ int (pos (length items))
      → IsItem k id (says_of e "item")
      → Step (idle items) e (added k id items)
  adds_part :
      (e : Event) (k : ItemKind) (id : String) (items : List Json)
      → part_added k ≡ some e.event_type
      → About e id items
      → Step (added k id items) e (writing k id items "")
  writes :
      (e : Event) (k : ItemKind) (id : String) (items : List Json) (text piece : String)
      → e.event_type ≡ delta_type k
      → About e id items
      → says_of e "delta" ≡ str piece
      → Step (writing k id items text) e (writing k id items (concat (text ∷ piece ∷ [])))
  completes :
      (e : Event) (k : ItemKind) (id : String) (items : List Json) (text : String)
      → e.event_type ≡ text_done k
      → About e id items
      → says_of e (text_key k) ≡ str text
      → Step (writing k id items text) e (written k id items text)
  completes_part :
      (e : Event) (k : ItemKind) (id : String) (items : List Json) (text : String)
      → part_done k ≡ some e.event_type
      → About e id items
      → get_in "text" (says_of e "part") ≡ str text
      → Step (written k id items text) e (parted k id items text)
  finishes :
      (e : Event) (k : ItemKind) (id : String) (items : List Json) (text : String)
      → e.event_type ≡ "response.output_item.done"
      → says_of e "output_index" ≡ int (pos (length items))
      → IsItem k id (says_of e "item")
      → item_text k (says_of e "item") ≡ str text
      → Step (parted k id items text) e (idle (items ++ says_of e "item" ∷ []))
  ends :
      (e : Event) (items : List Json)
      → IsLast e
      → get_in "output" (says_of e "response") ≡ array items
      → Step (idle items) e ended

-- The events lead from one phase to another. A function call passes over its missing parts.
pub data Runs : Phase → List Event → Phase → Type 0 where
  stays : {p : Phase} → Runs p [] p
  steps :
      {p q r : Phase} {e : Event} {es : List Event} → Step p e q → Runs q es r → Runs p (e ∷ es) r
  no_part_added :
      {r : Phase} {es : List Event} (k : ItemKind) (id : String) (items : List Json)
      → part_added k ≡ none
      → Runs (writing k id items "") es r
      → Runs (added k id items) es r
  no_part_done :
      {r : Phase} {es : List Event} (k : ItemKind) (id : String) (items : List Json) (text : String)
      → part_done k ≡ none
      → Runs (parted k id items text) es r
      → Runs (written k id items text) es r

pub Runs-append :
    {p q r : Phase} (es fs : List Event) → Runs p es q → Runs q fs r → Runs p (es ++ fs) r
Runs-append _ fs stays g = g
Runs-append _ fs (steps {es = es} s h) g = steps s (Runs-append es fs h g)
Runs-append es fs (no_part_added k id items e h) g =
    no_part_added k id items e (Runs-append es fs h g)
Runs-append es fs (no_part_done k id items text e h) g =
    no_part_done k id items text e (Runs-append es fs h g)

-- Nothing follows the end of a stream.
pub Runs-ended : {p : Phase} (es : List Event) → Runs ended es p → es ≡ []
Runs-ended _ stays = refl
Runs-ended _ (steps s h) = elim s [ ]
