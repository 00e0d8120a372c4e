-- ===== src/Responses/Request/Kept.antt =====
-- app/responses_compat.py: what is put into the body after its messages leaves them as they are.
use mathlib.Core.Option
use zcode2api.Prelude.{
  ◌≡◌, refl, ◌∙◌, String, Bool, true, false, Option, none, some, List, [], ◌∷◌, if◌then◌else◌,
  str_eq, nonempty, is_empty,
}
use zcode2api.Prelude.Json.{
  Json, Fields, null, bool, int, float, str, arr, obj, get, put, is_truthy,
}
use zcode2api.Chat.{says}
use zcode2api.Chat.Effort.{
  efforts, written, with_config, with_effort, with_thinking, wants_thinking, thinking_enabled,
  without_inputs,
}
use zcode2api.Chat.Effort.Valid.{get-put, get-remove}
use zcode2api.Chat.Request.{
  sampling, number_put, or_kept, with_top_p, put_stream, put_system, put_tools, named_choice,
}
use zcode2api.Responses.Items.{word}
use zcode2api.Responses.Request.{put_found, choice_name, put_choice}

-- The messages of both bodies are the same.
abbrev pub Same : Fields → Fields → Type 0
Same b c = get "messages" c ≡ get "messages" b

abbrev pub SameSome : Fields → Option Fields → Type 0
SameSome b none = Unit
SameSome b (some c) = Same b c

if_same : (x : Bool) (b c d : Fields) → Same b c → Same b d → Same b (if x then c else d)
if_same true b c d hc hd = hc
if_same false b c d hc hd = hd

if_some_same :
    (x : Bool) (b : Fields) (o p : Option Fields)
    → SameSome b o
    → SameSome b p
    → SameSome b (if x then o else p)
if_some_same true b o p ho hp = ho
if_some_same false b o p ho hp = hp

pub put_found_same : (o : Option String) (b : Fields) → Same b (put_found o b)
put_found_same none b = refl
put_found_same (some s) b = simp get-put

pub put_tools_same : (l : List Json) (b : Fields) → Same b (put_tools l b)
put_tools_same [] b = refl
put_tools_same (t ∷ l) b = simp get-put

named_choice_same : (s : String) (b : Fields) → Same b (named_choice s b)
named_choice_same s b = if_same (nonempty s) b _ b (simp get-put) refl

choice_same :
    (o : Option Json) (b : Fields) → SameSome b (Option.map (λ name. named_choice (word name) b) o)
choice_same none b = tt
choice_same (some j) b = named_choice_same (word j) b

pub put_choice_same : (j : Json) (b : Fields) → SameSome b (put_choice j b)
unfolding put_choice
put_choice_same (str s) b = if_some_same (str_eq s "none") b _ _ (simp get-remove) (
    if_some_same (str_eq s "auto") b _ _ (simp get-put)
      (if_some_same (str_eq s "required") b _ _ (simp get-put) refl))
put_choice_same (obj fs) b =
    if_some_same (says "function" (get "type" fs)) b _ (some b) (choice_same (choice_name fs) b)
      refl
put_choice_same _ b = refl

pub put_system_same : (l : List String) (b : Fields) → Same b (put_system l b)
put_system_same l b = if_same (is_empty l) b b _ refl (simp get-put)

pub put_stream_same : (j : Json) (b : Fields) → Same b (put_stream j b)
put_stream_same j b = if_same (is_truthy j) b _ b (simp get-put) refl

with_config_same : (j : Json) (b : Fields) → Same b (with_config j b)
with_config_same (obj fs) b = simp get-put
with_config_same _ b = refl

with_effort_same : (l : List (String × Json)) (b : Fields) → Same b (with_effort l b)
with_effort_same [] b = refl
with_effort_same ((k, v) ∷ l) b = simp get-put

with_thinking_same : (payload b : Fields) → Same b (with_thinking payload b)
with_thinking_same payload b =
    if_same (wants_thinking payload) b (put "thinking" thinking_enabled b) b (simp get-put) refl

without_inputs_same : (b : Fields) → Same b (without_inputs b)
without_inputs_same b = simp get-remove

pub written_same : (payload b : Fields) → Same b (written payload b)
unfolding written
written_same payload b =
    let c = with_config (get "output_config" payload) b in
    let e = with_effort (efforts payload) c in
    let t = with_thinking payload e in
    without_inputs_same t
    ∙ with_thinking_same payload e
    ∙ with_effort_same (efforts payload) c
    ∙ with_config_same (get "output_config" payload) b

read_same :
    (k : String) (o : Option String) (b : Fields)
    → str_eq k "messages" ≡ false
    → SameSome b (Option.map (λ t. put k (float t) b) o)
read_same k none b h = tt
read_same k (some t) b h = get-put k "messages" (float t) b ∙ rw h

module _ (to_float : Json → Option String) where
  number_put_same :
      (k : String) (j : Json) (b : Fields)
      → str_eq k "messages" ≡ false
      → SameSome b (number_put to_float k j b)
  number_put_same k null b h = refl
  number_put_same k (bool x) b h = read_same k (to_float (bool x)) b h
  number_put_same k (int x) b h = read_same k (to_float (int x)) b h
  number_put_same k (float x) b h = read_same k (to_float (float x)) b h
  number_put_same k (str x) b h = read_same k (to_float (str x)) b h
  number_put_same k (arr x) b h = read_same k (to_float (arr x)) b h
  number_put_same k (obj x) b h = read_same k (to_float (obj x)) b h

  or_kept_same :
      (b c : Fields) (o : Option Fields) → Same b c → SameSome c o → Same b (or_kept to_float c o)
  or_kept_same b c none h g = h
  or_kept_same b c (some d) h g = g ∙ h

  with_top_p_same :
      (payload b : Fields) (o : Option Fields)
      → SameSome b o
      → Same b (with_top_p to_float payload b o)
  with_top_p_same payload b none h = refl
  with_top_p_same payload b (some c) h =
      or_kept_same b c _ h (number_put_same "top_p" (get "top_p" payload) c refl)

  pub sampling_same : (payload b : Fields) → Same b (sampling to_float payload b)
  unfolding sampling
  sampling_same payload b =
      with_top_p_same payload b _ (number_put_same "temperature" (get "temperature" payload) b refl)
