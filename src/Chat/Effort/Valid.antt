-- ===== src/Chat/Effort/Valid.antt =====
-- app/openai_compat.py: a request that passes `_apply_reasoning_params` names one effort in all its
-- fields, and the body carries it.
use mathlib.Core.Path.{subst}
use zcode2api.Prelude.{
  ◌≡◌, refl, sym, ap, ◌∙◌, or_else, String, Bool, true, false, Option, none, some, List, [], ◌∷◌,
  if◌then◌else◌, str_eq, eq_iff, eq_refl, arith, All, all, member,
}
use zcode2api.Prelude.Json
use zcode2api.Prelude.Json.{Json, Fields, str, obj, end, field, get, put, remove, get_in}
use zcode2api.Chat.Effort.{
  shape_complaint, level_complaint, Applied, applied, refused, levels, same_level, bad_level,
  conflicting, efforts, complaint, thinking_enabled, apply_reasoning_params, written,
}

-- The laws of a dict that are used here.
pub get-put :
    (k j : String) (v : Json) (d : Fields) → get j (put k v d) ≡ (if str_eq k j then v else get j d)
unfolding Json.get Json.put
get-put k j v end = refl
get-put k j v (field i w d) = ground (arith, eq_iff k j, eq_iff i k, eq_iff i j, get-put k j v d)

pub get-remove :
    (k j : String) (d : Fields) → get j (remove k d) ≡ (if str_eq k j then Json.null else get j d)
unfolding Json.get Json.remove
get-remove k j end = ground arith
get-remove k j (field i w d) = ground (arith, eq_iff k j, eq_iff i k, eq_iff i j, get-remove k j d)

-- What the fields that name an effort say.
abbrev pub Agree : String → List (String × Json) → Type 0
Agree level l = All (λ e. e.1 ≡ str level) l

or_else-none : (a b : Option String) → or_else a b ≡ none → b ≡ none
or_else-none none b h = h
or_else-none (some a) b h = absurd (cc)

level_complaint-none :
    (o : Option (String × Json)) (conflict budget : Bool)
    → level_complaint o conflict budget ≡ none
    → (o ≡ none) × (conflict ≡ false)
level_complaint-none (some e) conflict budget h = absurd (cc)
level_complaint-none none conflict budget h = ground arith

complaint-none :
    (payload : Fields)
    → complaint payload ≡ none
    → (bad_level (efforts payload) ≡ none) × (conflicting (efforts payload) ≡ false)
unfolding complaint
complaint-none payload h = level_complaint-none _ _ _ (or_else-none (shape_complaint payload) _ h)

levels-Agree :
    (s : String) (l : List (String × Json)) → all (λ e. same_level (str s) e.1) l ≡ true → Agree s l
levels-Agree s [] h = tt
levels-Agree s ((k, str t) ∷ l) h =
    (ground (arith, eq_iff s t), levels-Agree s l (ground (arith, eq_iff s t)))
levels-Agree s ((k, _) ∷ l) h = absurd (ground arith)

-- The first effort is a level, and all are the same.
efforts-Agree :
    (k : String) (v : Json) (l : List (String × Json))
    → bad_level ((k, v) ∷ l) ≡ none
    → conflicting ((k, v) ∷ l) ≡ false
    → (level : String) × (v ≡ str level) × (member level levels ≡ true) × Agree level ((k, v) ∷ l)
efforts-Agree k (str s) l h c =
    let same : all (λ (e : String × Json). same_level (str s) e.1) l ≡ true =
      ground (arith, eq_refl s) in
    (s, refl, ground arith, (refl, levels-Agree s l same))
efforts-Agree k _ l h c = absurd (ground arith)

-- A request that names an effort and passes: all the fields that name one say the same level, which the
-- body's output configuration carries, and its thinking is enabled without a budget.
abbrev pub Carries : Fields → Fields → Type 0
Carries payload body =
    (level : String) × (member level levels ≡ true)
    × Agree level (efforts payload)
    × (get_in "effort" (get "output_config" body) ≡ str level)
    × (get "thinking" body ≡ thinking_enabled)

applied_of :
    (o : Option String) (w b : Fields)
    → (elim o as (λ x. Applied) [ some m ↦ refused m | none ↦ applied w ]) ≡ applied b
    → (o ≡ none) × (b ≡ w)
applied_of none w b h = ground arith
applied_of (some m) w b h = absurd (cc)

written-Carries :
    (payload body : Fields) (k level : String) (l : List (String × Json))
    → efforts payload ≡ (k, str level) ∷ l
    → (get_in "effort" (get "output_config" (written payload body)) ≡ str level)
      × (get "thinking" (written payload body) ≡ thinking_enabled)
unfolding written
written-Carries payload body k level l e =
    (rw e (simp (get-remove, get-put)), rw e (simp (get-remove, get-put)))

pub applied_body :
    (payload body b : Fields)
    → apply_reasoning_params payload body ≡ applied b
    → (complaint payload ≡ none) × (b ≡ written payload body)
unfolding apply_reasoning_params
applied_body payload body b h = applied_of (complaint payload) (written payload body) b h

carried :
    (payload body : Fields) (k : String) (v : Json) (l : List (String × Json))
    → efforts payload ≡ (k, v) ∷ l
    → complaint payload ≡ none
    → Carries payload (written payload body)
carried payload body k v l e h =
    let checks : (bad_level (efforts payload) ≡ none) × (conflicting (efforts payload) ≡ false) =
      complaint-none payload h in
    let a : (level : String) × (v ≡ str level)
        × (member level levels ≡ true)
        × Agree level ((k, v) ∷ l) =
      efforts-Agree k v l (ap bad_level (sym e) ∙ checks.0) (ap conflicting (sym e) ∙ checks.1) in
    let w : (get_in "effort" (get "output_config" (written payload body)) ≡ str a.0)
        × (get "thinking" (written payload body) ≡ thinking_enabled) =
      written-Carries payload body k a.0 l (e ∙ ap (λ x. (k, x) ∷ l) a.1) in
    (a.0, a.2, subst (Agree a.0) (sym e) a.3, w.0, w.1)

-- A request that passes the check and names an effort: each field that names one, the effort of the
-- reasoning, of the output configuration or `reasoning_effort`, says one and the same level out of low,
-- high and max; the output configuration of the body carries that level, and the body's thinking is
-- enabled with no budget.
pub apply_reasoning_params-Carries :
    (payload body b : Fields) (k : String) (v : Json) (l : List (String × Json))
    → apply_reasoning_params payload body ≡ applied b
    → efforts payload ≡ (k, v) ∷ l
    → Carries payload b
apply_reasoning_params-Carries payload body b k v l h e =
    let r : (complaint payload ≡ none) × (b ≡ written payload body) =
      applied_body payload body b h in
    subst (Carries payload) (sym r.1) (carried payload body k v l e r.0)
