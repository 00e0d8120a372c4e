-- ===== src/Responses/Messages/Loop.antt =====
-- app/responses_compat.py: the loop of `_coalesce_non_empty_messages` keeps its list clean and its blocks.
use mathlib.Core.Path.{subst}
use zcode2api.Prelude.{
  ℕ, ◌+◌, ◌≡◌, refl, sym, String, Bool, true, false, List, [], ◌∷◌, if◌then◌else◌, str_eq, not,
  ◌||◌, is_empty, Bool-cases, inl, inr, arith,
}
use zcode2api.Prelude.Json.{Json}
use zcode2api.Responses.Messages.{
  Message, arranged, merged, merge_last, known_role, blocks_of, absorb, coalesce_from, coalesce,
}
use zcode2api.Responses.Messages.Coalesced.{
  Clean, Differ, count, count-arranged, count-merged, arranged-IsClean, merged-IsClean,
}

-- The message that a merge starts, and the one that it changes.
abbrev fresh : String → List Json → Message
fresh role blocks = record { role = role; content = arranged role blocks }

abbrev grown : Message → String → List Json → Message
grown m role blocks = record m { content = merged role m.content blocks }

abbrev last : Message → String → List Json → Bool → List Message
last m role blocks b = if b then grown m role blocks ∷ [] else m ∷ (fresh role blocks ∷ [])

Differ-last :
    (p m : Message) (role : String) (blocks : List Json) (b : Bool)
    → str_eq p.role m.role ≡ false
    → Differ p (last m role blocks b)
Differ-last p m role blocks true h = h
Differ-last p m role blocks false h = h

Differ-merge_last :
    (p m : Message) (role : String) (blocks : List Json) (l : List Message)
    → str_eq p.role m.role ≡ false
    → Differ p (merge_last role blocks (m ∷ l))
unfolding merge_last
Differ-merge_last p m role blocks [] h = Differ-last p m role blocks (str_eq m.role role) h
Differ-merge_last p m role blocks (n ∷ l) h = h

merge_last-Clean :
    (role : String) (blocks : List Json) (l : List Message)
    → is_empty blocks ≡ false
    → known_role role ≡ true
    → Clean l
    → Clean (merge_last role blocks l)
unfolding merge_last
merge_last-Clean role blocks [] h k c = (arranged-IsClean role blocks h k, tt, tt)
merge_last-Clean role blocks (m ∷ []) h k c = elim (Bool-cases (str_eq m.role role)) [
  | inl e ↦
      subst (λ b. Clean (last m role blocks b)) (sym e)
        (merged-IsClean m role blocks e h c.0, tt, tt)
  | inr e ↦
      subst (λ b. Clean (last m role blocks b)) (sym e)
        (c.0, e, (arranged-IsClean role blocks h k, tt, tt))
]
merge_last-Clean role blocks (m ∷ (n ∷ l)) h k c =
    (c.0, Differ-merge_last m n role blocks l c.1, merge_last-Clean role blocks (n ∷ l) h k c.2)

if_Clean :
    (b : Bool) (x y : List Message) → Clean x → (b ≡ false → Clean y) → Clean (if b then x else y)
if_Clean true x y hx hy = hx
if_Clean false x y hx hy = hy refl

absorb-Clean : (l : List Message) (m : Message) → Clean l → Clean (absorb l m)
unfolding absorb
absorb-Clean l m c =
    if_Clean (is_empty (blocks_of m) || not (known_role m.role)) l
      (merge_last m.role (blocks_of m) l) c
      (λ e. merge_last-Clean m.role (blocks_of m) l (ground arith) (ground arith) c)

coalesce_from-Clean : (l raw : List Message) → Clean l → Clean (coalesce_from l raw)
unfolding coalesce_from
coalesce_from-Clean l [] c = c
coalesce_from-Clean l (m ∷ raw) c = coalesce_from-Clean (absorb l m) raw (absorb-Clean l m c)

-- Whatever messages come in: in what comes out no message is empty, each has the role of the user or the
-- assistant, no two neighbours have the same role, and the results of tools stand before all else in a
-- message of the user.
pub coalesce-Clean : (raw : List Message) → Clean (coalesce raw)
unfolding coalesce
coalesce-Clean raw = coalesce_from-Clean [] raw tt

-- The blocks of a kind in all messages.
abbrev pub total : (Json → Bool) → List Message → ℕ
total q [] = 0
total q (m ∷ l) = count q m.content + total q l

-- Those that come in: objects, in messages of the two roles.
abbrev pub offered : (Json → Bool) → List Message → ℕ
offered q [] = 0
offered q (m ∷ l) = (if known_role m.role then count q (blocks_of m) else 0) + offered q l

merge_last-total :
    (q : Json → Bool) (role : String) (blocks : List Json) (l : List Message)
    → total q (merge_last role blocks l) ≡ total q l + count q blocks
unfolding merge_last
merge_last-total q role blocks [] = omega (arith, count-arranged q role blocks)
merge_last-total q role blocks (m ∷ []) = elim (Bool-cases (str_eq m.role role)) [
  | inl e ↦
      subst (λ b. total q (last m role blocks b) ≡ total q (m ∷ []) + count q blocks) (sym e)
        (omega (arith, count-merged q role m.content blocks))
  | inr e ↦
      subst (λ b. total q (last m role blocks b) ≡ total q (m ∷ []) + count q blocks) (sym e)
        (omega (arith, count-arranged q role blocks))
]
merge_last-total q role blocks (m ∷ (n ∷ l)) = omega (arith, merge_last-total q role blocks (n ∷ l))

nothing_counted : (q : Json → Bool) (l : List Json) → is_empty l ≡ true → count q l ≡ 0
nothing_counted q [] h = refl
nothing_counted q (b ∷ l) h = absurd (cc)

absorb-total :
    (q : Json → Bool) (l : List Message) (m : Message)
    → total q (absorb l m) ≡ total q l + (if known_role m.role then count q (blocks_of m) else 0)
unfolding absorb
absorb-total q l m =
    ground (arith, merge_last-total q m.role (blocks_of m) l, nothing_counted q (blocks_of m))

coalesce_from-total :
    (q : Json → Bool) (l raw : List Message)
    → total q (coalesce_from l raw) ≡ total q l + offered q raw
unfolding coalesce_from
coalesce_from-total q l [] = omega arith
coalesce_from-total q l (m ∷ raw) =
    omega (arith, coalesce_from-total q (absorb l m) raw, absorb-total q l m)

-- No block is lost and none is made: of every kind there are as many blocks in the messages that come
-- out as there are objects of the kind in the messages of the two roles that come in.
pub total-coalesce : (q : Json → Bool) (raw : List Message) → total q (coalesce raw) ≡ offered q raw
unfolding coalesce
total-coalesce q raw = omega (arith, coalesce_from-total q [] raw)
