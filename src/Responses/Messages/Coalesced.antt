-- ===== src/Responses/Messages/Coalesced.antt =====
-- app/responses_compat.py: what `_coalesce_non_empty_messages` gives alternates between the roles, holds no
-- empty message, has the results of tools first, and loses no block.
use mathlib.Core.Path.{subst}
use zcode2api.Prelude.{
  ℕ, ◌+◌, ◌≡◌, ◌<◌, ◌∙◌, refl, sym, String, Bool, true, false, List, [], ◌∷◌, ◌++◌, if◌then◌else◌,
  str_eq, eq_iff, not, is_empty, keep_if, All, All-map, All-append, Bool-cases, inl, inr, arith,
}
use zcode2api.Prelude.Json.{Json}
use zcode2api.Responses.Messages.{
  Message, is_result, is_other, is_user, arranged, merged, known_role,
}

-- No block that is no result stands before a result.
abbrev pub ResultsFirst : List Json → Type 0
ResultsFirst [] = Unit
ResultsFirst (b ∷ l) = (is_result b ≡ false → All (λ x. is_result x ≡ false) l) × ResultsFirst l

-- A message that may stand in the body.
pub record IsClean (m : Message) : Type 0 where
  pub filled : is_empty m.content ≡ false
  pub known : known_role m.role ≡ true
  pub sorted : is_user m.role ≡ true → ResultsFirst m.content

abbrev pub Differ : Message → List Message → Type 0
Differ m [] = Unit
Differ m (n ∷ l) = str_eq m.role n.role ≡ false

abbrev pub Clean : List Message → Type 0
Clean [] = Unit
Clean (m ∷ l) = IsClean m × Differ m l × Clean l

others_first : (l : List Json) → All (λ x. is_result x ≡ false) l → ResultsFirst l
others_first [] h = tt
others_first (b ∷ l) h = (λ e. h.1, others_first l h.1)

results_then :
    (l m : List Json)
    → All (λ x. is_result x ≡ true) l
    → All (λ x. is_result x ≡ false) m
    → ResultsFirst (l ++ m)
results_then [] m h g = others_first m g
results_then (b ∷ l) m h g = (λ e. absurd (true_false (is_result b) h.0 e), results_then l m h.1 g)
  where
    true_false : (b : Bool) → b ≡ true → b ≡ false → ⊥
    true_false b p q = cc

All_kept : (p : Json → Bool) (l : List Json) → All (λ x. p x ≡ true) (keep_if p l)
All_kept p [] = tt
All_kept p (b ∷ l) = elim (Bool-cases (p b)) [
  | inl e ↦
      subst (λ t. All (λ x. p x ≡ true) (if t then b ∷ keep_if p l else keep_if p l)) (sym e)
        (e, All_kept p l)
  | inr e ↦
      subst (λ t. All (λ x. p x ≡ true) (if t then b ∷ keep_if p l else keep_if p l)) (sym e)
        (All_kept p l)
]

not-true : (b : Bool) → not b ≡ true → b ≡ false
not-true true h = cc
not-true false h = refl

All_others : (l : List Json) → All (λ x. is_result x ≡ false) (keep_if is_other l)
All_others l =
    All-map (λ x. is_other x ≡ true) (λ x. is_result x ≡ false) (λ x h. not-true (is_result x) h)
      (keep_if is_other l) (All_kept is_other l)

-- How many blocks of a kind there are.
abbrev pub count : (Json → Bool) → List Json → ℕ
count q [] = 0
count q (b ∷ l) = (if q b then 1 else 0) + count q l

pub count-append : (q : Json → Bool) (l m : List Json) → count q (l ++ m) ≡ count q l + count q m
count-append q [] m = omega arith
count-append q (b ∷ l) m = omega (arith, count-append q l m)

count-split :
    (q : Json → Bool) (l : List Json)
    → count q (keep_if is_result l) + count q (keep_if is_other l) ≡ count q l
count-split q [] = omega arith
count-split q (b ∷ l) = elim (Bool-cases (is_result b)) [
  | inl e ↦ rw e (omega (arith, count-split q l))
  | inr e ↦ rw e (omega (arith, count-split q l))
]

pub count-arranged :
    (q : Json → Bool) (role : String) (l : List Json) → count q (arranged role l) ≡ count q l
unfolding arranged
count-arranged q role l = elim (Bool-cases (is_user role)) [
  | inl e ↦ rw e (count-append q (keep_if is_result l) (keep_if is_other l) ∙ count-split q l)
  | inr e ↦ rw e refl
]

pub count-merged :
    (q : Json → Bool) (role : String) (l m : List Json)
    → count q (merged role l m) ≡ count q l + count q m
unfolding merged
count-merged q role l m = elim (Bool-cases (is_user role)) [
  | inl e ↦ rw e (
      omega (
        arith,
        count-split q l,
        count-split q m,
        count-append q (keep_if is_result l ++ keep_if is_result m)
            (keep_if is_other l ++ keep_if is_other m),
        count-append q (keep_if is_result l) (keep_if is_result m),
        count-append q (keep_if is_other l) (keep_if is_other m),
      ))
  | inr e ↦ rw e (count-append q l m)
]

arranged-ResultsFirst :
    (role : String) (l : List Json) → is_user role ≡ true → ResultsFirst (arranged role l)
unfolding arranged
arranged-ResultsFirst role l e =
    rw e (
      results_then (keep_if is_result l) (keep_if is_other l) (All_kept is_result l) (All_others l))

merged-ResultsFirst :
    (role : String) (l m : List Json) → is_user role ≡ true → ResultsFirst (merged role l m)
unfolding merged
merged-ResultsFirst role l m e = rw e (
    results_then (keep_if is_result l ++ keep_if is_result m)
      (keep_if is_other l ++ keep_if is_other m)
      (All-append _ (keep_if is_result l) _ (All_kept is_result l) (All_kept is_result m))
      (All-append _ (keep_if is_other l) _ (All_others l) (All_others m)))

abbrev any_block : Json → Bool
any_block b = true

filled_count : (l : List Json) → 0 < count any_block l → is_empty l ≡ false
filled_count [] h = absurd (omega arith)
filled_count (b ∷ l) h = refl

count_filled : (l : List Json) → is_empty l ≡ false → 0 < count any_block l
count_filled [] h = absurd (cc)
count_filled (b ∷ l) h = omega arith

pub arranged-IsClean :
    (role : String) (l : List Json)
    → is_empty l ≡ false
    → known_role role ≡ true
    → IsClean (record { role = role; content = arranged role l })
arranged-IsClean role l h k = record {
  filled =
      filled_count (arranged role l)
        (omega (arith, count-arranged any_block role l, count_filled l h));
  known = k;
  sorted = arranged-ResultsFirst role l;
}

pub merged-IsClean :
    (m : Message) (role : String) (l : List Json)
    → str_eq m.role role ≡ true
    → is_empty l ≡ false
    → IsClean m
    → IsClean (record m { content = merged role m.content l })
merged-IsClean m role l e h c = record {
  filled =
      filled_count (merged role m.content l)
        (omega (arith, count-merged any_block role m.content l, count_filled l h));
  known = c.known;
  sorted = λ u.
      merged-ResultsFirst role m.content l
        (subst (λ r. is_user r ≡ true) ((eq_iff m.role role).0 e) u);
}
