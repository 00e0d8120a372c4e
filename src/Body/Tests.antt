-- ===== src/Body/Tests.antt =====
-- Runs of the transformations, and their theorems at a small body.
use zcode2api.Prelude.{◌≡◌, refl, String, false, Option, none, some, [], ◌∷◌}
use zcode2api.Prelude.Json
use zcode2api.Prelude.Json.{
  Json, Fields, fields, object, array, str, arr, obj, get, get_in, is_truthy,
}
use zcode2api.Body.{apply_user_id}
use zcode2api.Body.Marks.{apply_cache_control, transform_body}
use zcode2api.Body.Marks.Once.{apply_cache_control_twice}
use zcode2api.Body.Twice.{apply_user_id_twice, transform_body_kept}

abbrev official : Fields
official = fields (("type", str "text") ∷ ("text", str "You are ZCode") ∷ [])

abbrev hello : Fields
hello = fields (
    ("model", str "glm")
    ∷ ("system", str "Be brief.")
    ∷ (
      "messages",
      array (
          object (("role", str "user") ∷ ("content", str "Hi") ∷ [])
          ∷ object (("role", str "system") ∷ ("content", str "x") ∷ [])
          ∷ []),
    )
    ∷ ("metadata", object (("session_id", str "s-1") ∷ []))
    ∷ [])

-- The system's message is passed over.
marked_hello :
    get "messages" (apply_cache_control hello).0
    ≡ array (
        object (
          ("role", str "user")
          ∷ (
            "content",
            array (
                object (
                  ("type", str "text")
                  ∷ ("text", str "Hi")
                  ∷ ("cache_control", object (("type", str "ephemeral") ∷ []))
                  ∷ [])
                ∷ []),
          )
          ∷ [])
        ∷ object (("role", str "system") ∷ ("content", str "x") ∷ [])
        ∷ [])
unfolding apply_cache_control Json.get Json.put
marked_hello = refl

named_hello : get "metadata" (apply_user_id "u" hello).0 ≡ object (("user_id", str "u") ∷ [])
unfolding apply_user_id Json.get Json.put Json.remove Json.has
named_hello = refl

apply_cache_control_twice_example :
    apply_cache_control (apply_cache_control hello).0 ≡ ((apply_cache_control hello).0, false)
apply_cache_control_twice_example = apply_cache_control_twice hello

official_text : get "text" official ≡ str "You are ZCode"
unfolding Json.get
official_text = refl

apply_user_id_twice_example :
    apply_user_id "u" (apply_user_id "u" hello).0 ≡ ((apply_user_id "u" hello).0, false)
apply_user_id_twice_example = apply_user_id_twice "u" hello

abbrev no_json : String → Option Json
no_json s = none

abbrev same : String → String
same s = s

transform_body_kept_example :
    get "model" (transform_body (obj official ∷ []) no_json same (some "u") (some "glm") none hello)
    ≡ get "model" hello
transform_body_kept_example =
    transform_body_kept "model" (obj official ∷ []) no_json same (some "u") (some "glm") none hello
      refl refl refl
