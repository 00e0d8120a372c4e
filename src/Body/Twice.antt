-- ===== src/Body/Twice.antt =====
-- app/body_transform.py: the system blocks and the user's identifier are written once, and a transformed
-- body differs from the client's in three fields only.
use zcode2api.Prelude.{
  ◌≡◌, refl, sym, ap, ◌∙◌, String, Bool, true, false, Option, none, some, List, [], ◌∷◌,
  if◌then◌else◌, str_eq, eq_refl, eq_iff, arith, truthy, Bool-cases, inl, inr,
}
use zcode2api.Prelude.Json
use zcode2api.Prelude.Json.{
  Json, Items, Fields, null, bool, int, float, str, arr, obj, cons, nil, get, has, put, remove,
  array,
}
use zcode2api.Chat.Effort.Valid.{get-put}
use zcode2api.Body.{
  same_text, begins_official, with_official, with_user, apply_start_plan_system, meta_fields,
  has_user, apply_user_id,
}
use zcode2api.Body.Marks.{
  Walk, passed, stopped, marked, mark_messages, with_messages, marked_in, apply_cache_control,
  transform_body, named,
}

has-remove : (k : String) (d : Fields) → has k (remove k d) ≡ false
unfolding Json.has Json.remove
has-remove k Json.end = refl
has-remove k (Json.field j v d) = elim (Bool-cases (str_eq j k)) [
  | inl e ↦ rw e (has-remove k d)
  | inr e ↦ rw e (rw e (has-remove k d))
]

has-put : (k j : String) (v : Json) (d : Fields) → str_eq j k ≡ false → has k (put j v d) ≡ has k d
unfolding Json.has Json.put
has-put k j v Json.end e = rw e refl
has-put k j v (Json.field i w d) e =
    ground (arith, eq_iff i j, eq_iff i k, eq_iff j k, has-put k j v d e)

-- A step that tests whether it was made before.
module _ (test : Fields → Bool) (write : Fields → Fields) where
  abbrev guarded : Fields → Fields × Bool
  guarded x = if test x then (x, false) else (write x, true)

  guarded-done : (b : Fields) → test b ≡ true → guarded b ≡ (b, false)
  guarded-done b e = rw e

  guarded-write : (b : Fields) → test b ≡ false → guarded b ≡ (write b, true)
  guarded-write b e = rw e

  guarded_twice :
      (b : Fields) → test (write b) ≡ true → guarded (guarded b).0 ≡ ((guarded b).0, false)
  guarded_twice b h = elim (Bool-cases (test b)) [
    | inl e ↦
        ap (λ (r : Fields × Bool). guarded r.0) (guarded-done b e)
        ∙ guarded-done b e
        ∙ sym (ap (λ (r : Fields × Bool). (r.0, false)) (guarded-done b e))
    | inr e ↦
        ap (λ (r : Fields × Bool). guarded r.0) (guarded-write b e)
        ∙ guarded-done (write b) h
        ∙ sym (ap (λ (r : Fields × Bool). (r.0, false)) (guarded-write b e))
  ]

same_text_refl : (j : Json) (s : String) → j ≡ str s → same_text j j ≡ true
same_text_refl j s e = ap (λ x. same_text x x) e ∙ eq_refl s

-- With an official first block that has a text, the official blocks are written once: a second call
-- changes nothing and says so.
pub apply_start_plan_system_twice :
    (fs : Fields) (s : String) (official : List Json) (model : Option String) (body : Fields)
    → get "text" fs ≡ str s
    → (let once : Fields = (apply_start_plan_system (obj fs ∷ official) model body).0 in
        apply_start_plan_system (obj fs ∷ official) model once ≡ (once, false))
unfolding apply_start_plan_system
apply_start_plan_system_twice fs s official model body h =
    guarded_twice (λ x. begins_official (obj fs) (get "system" x))
      (λ x. put "system" (with_official (obj fs) official model (get "system" x)) x) body
      (ap (begins_official (obj fs)) (
          get-put "system" "system" (with_official (obj fs) official model (get "system" body))
            body)
        ∙ same_text_refl (get "text" fs) s h)

user_written :
    (user : String) (m : Fields)
    → has_user user (obj (put "user_id" (str user) (remove "session_id" m))) ≡ true
user_written user m = simp (
  get-put,
  eq_refl,
  has-put "session_id" "user_id" (str user) (remove "session_id" m) refl,
  has-remove,
)

-- The user's identifier is written once: a second call changes nothing and says so.
pub apply_user_id_twice :
    (user : String) (body : Fields)
    → apply_user_id user (apply_user_id user body).0 ≡ ((apply_user_id user body).0, false)
unfolding apply_user_id
apply_user_id_twice user body =
    guarded_twice (λ x. has_user user (get "metadata" x))
      (λ x. put "metadata" (with_user user (get "metadata" x)) x) body
      (ap (has_user user)
          (get-put "metadata" "metadata" (with_user user (get "metadata" body)) body)
        ∙ user_written user (meta_fields (get "metadata" body)))

-- A field that a body keeps.
module _ (k : String) where
  abbrev Kept : Fields → Fields → Type 0
  Kept b c = get k c ≡ get k b

  put-Kept : (j : String) (v : Json) (b : Fields) → str_eq j k ≡ false → Kept b (put j v b)
  put-Kept j v b e = get-put j k v b ∙ rw e

  choose-Kept :
      (x : Bool) (b c : Fields)
      → Kept b c
      → Kept b (let r : Fields × Bool = if x then (b, false) else (c, true) in r.0)
  choose-Kept true b c h = refl
  choose-Kept false b c h = h

  system-Kept :
      (official : List Json) (model : Option String) (b : Fields)
      → str_eq "system" k ≡ false
      → Kept b (apply_start_plan_system official model b).0
  unfolding apply_start_plan_system
  system-Kept [] model b e = refl
  system-Kept (first ∷ official) model b e =
      choose-Kept (begins_official first (get "system" b)) b _
        (put-Kept "system" (with_official first official model (get "system" b)) b e)

  with_messages-Kept :
      (b : Fields) (r : Items × Walk) → str_eq "messages" k ≡ false → Kept b (with_messages b r).0
  with_messages-Kept b (l, marked) e = put-Kept "messages" (arr l) b e
  with_messages-Kept b (l, passed) e = refl
  with_messages-Kept b (l, stopped) e = refl

  marked_in-Kept : (b : Fields) (j : Json) → str_eq "messages" k ≡ false → Kept b (marked_in b j).0
  marked_in-Kept b (arr l) e = with_messages-Kept b (mark_messages l) e
  marked_in-Kept b null e = refl
  marked_in-Kept b (bool x) e = refl
  marked_in-Kept b (int x) e = refl
  marked_in-Kept b (float x) e = refl
  marked_in-Kept b (str x) e = refl
  marked_in-Kept b (obj x) e = refl

  cache-Kept : (b : Fields) → str_eq "messages" k ≡ false → Kept b (apply_cache_control b).0
  unfolding apply_cache_control
  cache-Kept b e = marked_in-Kept b (get "messages" b) e

  user-Kept :
      (user : String) (b : Fields) → str_eq "metadata" k ≡ false → Kept b (apply_user_id user b).0
  unfolding apply_user_id
  user-Kept user b e =
      choose-Kept (has_user user (get "metadata" b)) b _
        (put-Kept "metadata" (with_user user (get "metadata" b)) b e)

  module _ (official : List Json) (loads : String → Option Json) (uuid5 : String → String) where
    named-Kept :
        (o : Option String) (b : Fields)
        → str_eq "metadata" k ≡ false
        → Kept b (named official loads uuid5 o b)
    named-Kept none b e = refl
    named-Kept (some user) b e =
        elim (truthy (some user)) as (λ x. Kept b (if x then (apply_user_id user b).0 else b)) [
          | true ↦ user-Kept user b e
          | false ↦ refl
        ]

    -- A transformed body has the client's value of every field but the system prompt, the messages and
    -- the metadata, whatever the account and the model are.
    pub transform_body_kept :
        (user model device : Option String) (b : Fields)
        → str_eq "system" k ≡ false
        → str_eq "messages" k ≡ false
        → str_eq "metadata" k ≡ false
        → get k (transform_body official loads uuid5 user model device b) ≡ get k b
    unfolding transform_body
    transform_body_kept user model device b s m u =
        let c : Fields = (apply_start_plan_system official model b).0 in
        let d : Fields = (apply_cache_control c).0 in
        named-Kept _ d u ∙ cache-Kept c m ∙ system-Kept official model b s
