-- ===== src/Responses/Answer/Texts.antt =====
-- app/responses_compat.py: no text of an answer is lost, doubled or moved in the items of its output.
use mathlib.Core.List.{append_assoc, append-nil}
use zcode2api.Prelude.{
  ℕ, suc, ◌≡◌, refl, sym, ap, ◌∙◌, String, Bool, true, false, List, [], ◌∷◌, ◌++◌, if◌then◌else◌,
  length,
}
use zcode2api.Prelude.Json.{Json, str, obj, get}
use zcode2api.Chat.{says}
use zcode2api.Responses.Answer.{
  Item, reasoning, message, call, add_text, add_some_text, reasoning_of, call_of, add_block,
  add_blocks, some_text, block_texts, texts_of,
}

-- The texts of the messages of an output, in order.
abbrev pub item_texts : List Item → List String
item_texts [] = []
item_texts (reasoning id signature s ∷ l) = item_texts l
item_texts (message id texts ∷ l) = texts ++ item_texts l
item_texts (call id name arguments ∷ l) = item_texts l

item_texts-append : (l m : List Item) → item_texts (l ++ m) ≡ item_texts l ++ item_texts m
item_texts-append [] m = refl
item_texts-append (reasoning _ _ _ ∷ l) m = item_texts-append l m
item_texts-append (message _ texts ∷ l) m =
    ap (λ t. texts ++ t) (item_texts-append l m)
    ∙ sym (append_assoc texts (item_texts l) (item_texts m))
item_texts-append (call _ _ _ ∷ l) m = item_texts-append l m

item_texts-add_text :
    (id : String) (n : ℕ) (s : String) (l : List Item)
    → item_texts (add_text id n s l) ≡ item_texts l ++ s ∷ []
unfolding add_text
item_texts-add_text id n s [] = refl
item_texts-add_text id n s (reasoning _ _ _ ∷ []) = refl
item_texts-add_text id n s (message _ texts ∷ []) =
    append-nil (texts ++ s ∷ []) ∙ ap (λ t. t ++ s ∷ []) (sym (append-nil texts))
item_texts-add_text id n s (call _ _ _ ∷ []) = refl
item_texts-add_text id n s (reasoning _ _ _ ∷ (y ∷ l)) = item_texts-add_text id (suc n) s (y ∷ l)
item_texts-add_text id n s (call _ _ _ ∷ (y ∷ l)) = item_texts-add_text id (suc n) s (y ∷ l)
item_texts-add_text id n s (message _ texts ∷ (y ∷ l)) =
    ap (λ t. texts ++ t) (item_texts-add_text id (suc n) s (y ∷ l))
    ∙ sym (append_assoc texts (item_texts (y ∷ l)) (s ∷ []))

-- An item that is no message adds no text.
silent :
    (l : List Item) (x : Item)
    → item_texts (x ∷ []) ≡ []
    → item_texts (l ++ x ∷ []) ≡ item_texts l ++ []
silent l x h = item_texts-append l (x ∷ []) ∙ ap (λ t. item_texts l ++ t) h

add_some_text-texts :
    (id : String) (j : Json) (l : List Item)
    → item_texts (add_some_text id j l) ≡ item_texts l ++ some_text j
add_some_text-texts id (str s) l = item_texts-add_text id 0 s l
add_some_text-texts id _ l = sym (append-nil (item_texts l))

choose :
    (b : Bool) (l m k : List Item) (s t : List String)
    → item_texts m ≡ item_texts l ++ s
    → item_texts k ≡ item_texts l ++ t
    → item_texts (if b then m else k) ≡ item_texts l ++ (if b then s else t)
choose true l m k s t h g = h
choose false l m k s t h g = g

add_block-texts :
    (id fresh : String) (b : Json) (l : List Item)
    → item_texts (add_block id fresh b l) ≡ item_texts l ++ block_texts b
unfolding add_block
add_block-texts id fresh (obj b) l =
    choose (says "thinking" (get "type" b)) l _ _ [] _
      (silent l (reasoning_of id b (length l)) refl)
      (choose (says "text" (get "type" b)) l _ _ (some_text (get "text" b)) []
        (add_some_text-texts id (get "text" b) l)
        (choose_nothing (says "tool_use" (get "type" b)) (silent l (call_of fresh b) refl)))
  where
    choose_nothing :
        (x : Bool)
        → item_texts (l ++ call_of fresh b ∷ []) ≡ item_texts l ++ []
        → item_texts (if x then l ++ call_of fresh b ∷ [] else l) ≡ item_texts l ++ []
    choose_nothing true h = h
    choose_nothing false h = sym (append-nil (item_texts l))
add_block-texts id fresh _ l = sym (append-nil (item_texts l))

-- The texts of the messages of an output to which the blocks of an answer are added are, in order, those
-- that it had and then the texts of the blocks: those that the response joins beside its output.
pub item_texts-add_blocks :
    (fresh : ℕ → String) (n : ℕ) (id : String) (blocks : List Json) (out : List Item)
    → item_texts (add_blocks fresh n id blocks out) ≡ item_texts out ++ texts_of blocks
unfolding add_blocks texts_of
item_texts-add_blocks fresh n id [] out = sym (append-nil (item_texts out))
item_texts-add_blocks fresh n id (b ∷ l) out =
    item_texts-add_blocks fresh (suc n) id l (add_block id (fresh n) b out)
    ∙ ap (λ t. t ++ texts_of l) (add_block-texts id (fresh n) b out)
    ∙ append_assoc (item_texts out) (block_texts b) (texts_of l)
