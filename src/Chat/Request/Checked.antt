-- ===== src/Chat/Request/Checked.antt =====
-- app/openai_compat.py: a chat request that is converted was checked, and its body carries the effort.
use mathlib.Core.Option
use mathlib.Core.Path.{subst}
use zcode2api.Prelude.{
  ◌≡◌, refl, sym, ap, ◌∙◌, String, Bool, true, false, Option, none, some, List, [], ◌∷◌, ◌>>=◌,
  if◌then◌else◌, str_eq, nonempty, strip, Bool-cases, inl, inr,
}
use zcode2api.Prelude.Json
use zcode2api.Prelude.Json.{
  Json, Items, Fields, null, bool, int, float, str, arr, obj, cons, get, put, remove, or_json,
  is_truthy, items,
}
use zcode2api.Prelude.Number.{as_int}
use zcode2api.Chat.{part, says, text_of}
use zcode2api.Chat.Turns.{turns}
use zcode2api.Chat.Effort.{Applied, applied, refused, efforts}
use zcode2api.Chat.Effort.Valid.{get-put, get-remove, Carries, apply_reasoning_params-Carries}
use zcode2api.Chat.Request.{
  Converted, messages_body, invalid, put_session, put_user, put_tools, mapped_tools, named_choice,
  put_choice, finished, converted, with_messages, is_named, openai_to_anthropic,
}

-- What carries an effort is the same in both bodies.
abbrev Keeps : Fields → Fields → Type 0
Keeps b c = (get "output_config" c ≡ get "output_config" b) × (get "thinking" c ≡ get "thinking" b)

put_user-Keeps : (j : Json) (b : Fields) → Keeps b (put_user j b)
put_user-Keeps (str s) b =
    elim (nonempty (strip s)) as (λ x. Keeps b (if x then put_session (strip s) b else b)) [
      | true ↦ (simp get-put, simp get-put)
      | false ↦ (refl, refl)
    ]
put_user-Keeps _ b = (refl, refl)

put_tools-Keeps : (l : List Json) (b : Fields) → Keeps b (put_tools l b)
put_tools-Keeps [] b = (refl, refl)
put_tools-Keeps (t ∷ l) b = (simp get-put, simp get-put)

-- The choice of a tool keeps it too, where it does not raise.
abbrev KeepsSome : Fields → Option Fields → Type 0
KeepsSome b none = Unit
KeepsSome b (some c) = Keeps b c

named_choice-Keeps : (s : String) (b : Fields) → Keeps b (named_choice s b)
named_choice-Keeps s b =
    elim (nonempty s)
      as (λ x. Keeps b (
        if x
        then put "tool_choice" (Json.object (("type", str "tool") ∷ ("name", str s) ∷ [])) b
        else b)) [ true ↦ (simp get-put, simp get-put) | false ↦ (refl, refl) ]

function_choice_keeps :
    (o : Option Fields) (b : Fields)
    → KeepsSome b (o >>= λ fn. some (named_choice (text_of (get "name" fn)) b))
function_choice_keeps none b = tt
function_choice_keeps (some fn) b = named_choice-Keeps (text_of (get "name" fn)) b

if_keeps :
    (x : Bool) (b : Fields) (o p : Option Fields)
    → KeepsSome b o
    → KeepsSome b p
    → KeepsSome b (if x then o else p)
if_keeps true b o p ho hp = ho
if_keeps false b o p ho hp = hp

put_choice_keeps : (j : Json) (b : Fields) → KeepsSome b (put_choice j b)
unfolding put_choice
put_choice_keeps (str s) b =
    if_keeps (str_eq s "none") b _ _ (simp get-remove, simp get-remove)
      (if_keeps (str_eq s "required") b _ _ (simp get-put, simp get-put) (refl, refl))
put_choice_keeps (obj fs) b =
    if_keeps (says "function" (get "type" fs)) b _ _ (function_choice_keeps (part "function" fs) b)
      (refl, refl)
put_choice_keeps _ b = (refl, refl)

pub map-messages_body :
    (o : Option Fields) (c : Fields)
    → Option.map messages_body o ≡ some (messages_body c)
    → o ≡ some c
map-messages_body none c h = absurd (cc)
map-messages_body (some d) c h = cc

pub bind_some {ℓ κ} :
    {A : Type ℓ} {B : Type κ} (o : Option A) (f : A → Option B) (y : B)
    → (o >>= f) ≡ some y
    → (a : A) × (f a ≡ some y)
bind_some none f y h = absurd (cc)
bind_some (some a) f y h = (a, h)

finished-Keeps :
    (payload b c : Fields) → finished payload (applied b) ≡ some (messages_body c) → Keeps b c
finished-Keeps payload b c h =
    let u : Fields = put_user (get "user" payload) b in
    let t : Fields = put_tools (mapped_tools (get "tools" payload)) u in
    let hu : Keeps b u = put_user-Keeps (get "user" payload) b in
    let ht : Keeps u t = put_tools-Keeps (mapped_tools (get "tools" payload)) u in
    let hc : Keeps t c =
      subst (KeepsSome t) (map-messages_body (put_choice (get "tool_choice" payload) t) c h)
        (put_choice_keeps (get "tool_choice" payload) t) in
    (hc.0 ∙ ht.0 ∙ hu.0, hc.1 ∙ ht.1 ∙ hu.1)

finished_applied :
    (payload c : Fields) (a : Applied)
    → finished payload a ≡ some (messages_body c)
    → (b : Fields) × (a ≡ applied b) × Keeps b c
finished_applied payload c (applied b) h = (b, refl, finished-Keeps payload b c h)
finished_applied payload c (refused m) h = absurd (cc)

Carries-Keeps : (payload b c : Fields) → Keeps b c → Carries payload b → Carries payload c
Carries-Keeps payload b c k h = (h.0, h.1, h.2, ap (Json.get_in "effort") k.0 ∙ h.3, k.1 ∙ h.4)

abbrev no_model : Option Converted
no_model = some (invalid "必须提供 model 参数")

no_model_body : (c : Fields) → no_model ≡ some (messages_body c) → ⊥
no_model_body c h = cc

module _ (loads : String → Option Json) (to_float : Json → Option String) where
  converted-Carries :
      (payload c : Fields) (xs : Items) (k : String) (v : Json) (l : List (String × Json))
      → converted loads to_float payload xs ≡ some (messages_body c)
      → efforts payload ≡ (k, v) ∷ l
      → Carries payload c
  unfolding converted
  converted-Carries payload c xs k v l h e =
      let t = bind_some (turns loads (items xs)) _ _ h in
      let n =
        bind_some
          (as_int (or_json (get "max_tokens" payload) (get "max_completion_tokens" payload))) _ _
          t.1 in
      let a = finished_applied payload c _ n.1 in
      Carries-Keeps payload a.0 c a.2 (apply_reasoning_params-Carries payload _ a.0 k v l a.1 e)

  with_messages-Carries :
      (payload c : Fields) (j : Json) (k : String) (v : Json) (l : List (String × Json))
      → with_messages loads to_float payload j ≡ some (messages_body c)
      → efforts payload ≡ (k, v) ∷ l
      → Carries payload c
  with_messages-Carries payload c (arr (cons x xs)) k v l h e =
      converted-Carries payload c (cons x xs) k v l h e
  with_messages-Carries payload c _ k v l h e = absurd (cc)

  -- A chat request that names an effort and is converted: all its fields that name one say the same level
  -- out of low, high and max, and the body that goes upstream carries it, with its thinking enabled,
  -- whatever else the request asks for.
  pub openai_to_anthropic-Carries :
      (payload c : Fields) (k : String) (v : Json) (l : List (String × Json))
      → openai_to_anthropic loads to_float payload ≡ some (messages_body c)
      → efforts payload ≡ (k, v) ∷ l
      → Carries payload c
  unfolding openai_to_anthropic
  openai_to_anthropic-Carries payload c k v l h e =
      elim (Bool-cases (is_named (get "model" payload))) [
        | inl named ↦
            with_messages-Carries payload c (get "messages" payload) k v l
              (ap
                  (λ b.
                    if b
                    then with_messages loads to_float payload (get "messages" payload)
                    else no_model)
                  (sym named)
                ∙ h)
              e
        | inr unnamed ↦ absurd (
            no_model_body c (
              ap
                (λ b.
                  if b
                  then with_messages loads to_float payload (get "messages" payload)
                  else no_model)
                (sym unnamed)
              ∙ h))
      ]
