-- ===== src/Gateway/Classify.antt =====
-- app/routes/gateway.py: `_extract_business_code` to `_classify_business_error`, with the tables of
-- app/constants.py. `json.loads` is the parameter `loads`, `none` where it raises. `lower` treats the
-- ASCII letters.
pub mod Families
pub mod Bounds
pub mod Risk
use zcode2api.Prelude.{
  ℕ, String, Bool, true, false, not, ◌&&◌, ◌||◌, Option, none, some, List, [], ◌∷◌, ◌++◌, str_eq,
  leb, ltb, ◌==◌, if◌then◌else◌, any, keep_if, map, member, truthy, nonempty, opt_text, strip,
  lower, contains, is_some, or_else,
}
use zcode2api.Prelude.Json
use zcode2api.Prelude.Json.{
  Json, Fields, null, bool, str, obj, as_obj, as_str, is_obj, or_json, show,
}

abbrev pub exhaust_business_codes : List String
exhaust_business_codes =
    "1005" ∷ "1304" ∷ "1308" ∷ "1310" ∷ "1313" ∷ "2056" ∷ "20097" ∷ "1316" ∷ "1317" ∷ "1318"
    ∷ "1319" ∷ "1320" ∷ "1321" ∷ "insufficient_quota" ∷ "credit_balance_exhausted" ∷ []

abbrev pub exhaust_keywords : List String
exhaust_keywords = "quota" ∷ "insufficient" ∷ "balance" ∷ "exhaust" ∷ "额度" ∷ "余额不足" ∷ []

abbrev pub auth_invalid_business_codes : List String
auth_invalid_business_codes = "1006" ∷ []

abbrev pub captcha_business_codes : List String
captcha_business_codes = "3007" ∷ []

abbrev pub rate_limit_business_codes : List String
rate_limit_business_codes =
    "3002" ∷ "3008" ∷ "3009" ∷ "3010" ∷ "1302" ∷ "1303" ∷ "1305" ∷ "rate_limit_reached_error"
    ∷ "rate_limit_error" ∷ []

abbrev pub concurrency_limit_business_codes : List String
concurrency_limit_business_codes = "3008" ∷ "3009" ∷ "3010" ∷ []

abbrev pub server_error_business_codes : List String
server_error_business_codes =
    "500" ∷ "1120" ∷ "1230" ∷ "1234" ∷ "1312" ∷ "2007" ∷ "engine_overloaded_error"
    ∷ "overloaded_error" ∷ []

abbrev pub captcha_body_markers : List String
captcha_body_markers =
    "\"code\":3007" ∷ "\"code\": 3007" ∷ "\"code\":\"3007\"" ∷ "\"code\": \"3007\"" ∷ []

abbrev pub risk_control_markers : List String
risk_control_markers =
    "\"code\":3012" ∷ "\"code\": 3012" ∷ "\"code\":\"3012\"" ∷ "\"code\": \"3012\""
    ∷ "unusual activity" ∷ []

abbrev pub one_of : Option String → List String → Bool
one_of none codes = false
one_of (some code) codes = member code codes

abbrev pub has_any : List String → String → Bool
has_any words text = any (λ w. contains w text) words

-- What the gateway reads of an upstream response whose body it has read.
pub record Response : Type 0 where
  pub status_code : ℕ
  pub captcha_header : Option String
  pub text : String

-- `str(raw_code).strip()`, with the code or type of the object `error` for a missing code.
error_code : Option Fields → Json
error_code none = null
error_code (some e) = or_json (Json.get "code" e) (Json.get "type" e)

code_text : Json → Option String
code_text null = none
code_text v = some (strip (show v))

is_null : Json → Bool
is_null null = true
is_null _ = false

raw_code : Fields → Json
unfolding error_code is_null
raw_code fs =
    if is_null (Json.get "code" fs)
    then error_code (as_obj (Json.get "error" fs))
    else Json.get "code" fs

-- `_extract_business_code` of an object that was read, without the message, which no caller uses.
unfoldable pub business_code : Fields → Option String
unfolding code_text raw_code
business_code fs =
    if str_eq (opt_text (as_str (Json.get "type" fs))) "message"
    then none
    else code_text (raw_code fs)

-- `_is_captcha_error`
unfoldable pub is_captcha_error : String → Bool
is_captcha_error text =
    contains "captcha" (lower text)
    || contains "verify token" (lower text)
    || contains "verify failed" (lower text)

-- A challenge is seen in the header, in the body, or in the text of a 403.
pub data Challenge : Type 0 where
  in_header in_body in_text : Challenge

-- What a business error is taken for: the status, its code and whether it is a limit of concurrency.
pub record Classified : Type 0 where
  pub status : ℕ
  pub code : Option String
  pub is_concurrency_limit : Bool

abbrev as_is : ℕ → Classified
as_is status = record { status = status; code = none; is_concurrency_limit = false }

-- The statuses of the code's families, in their order.
pub status_for : ℕ → (exhaust auth concurrency rate server : Bool) → ℕ
status_for s exhaust auth concurrency rate server =
    if exhaust
    then 402
    else if auth
    then 401
    else if concurrency
    then 429
    else if rate
    then 429
    else if server
    then (if leb 500 s then s else 500)
    else if ltb s 400
    then 400
    else s

by_family :
    ℕ → Option String → (risk captcha exhaust auth concurrency rate server : Bool) → Classified
unfolding status_for
by_family s code risk captcha exhaust auth concurrency rate server =
    if risk
    then record {
      status = 405;
      code = some (if truthy code then opt_text code else "3012");
      is_concurrency_limit = false;
    }
    else if captcha
    then record {
      status = if (s == 400) || (s == 403) then s else 403;
      code = some (if truthy code then opt_text code else "3007");
      is_concurrency_limit = false;
    }
    else record {
      status = status_for s exhaust auth concurrency rate server;
      code = code;
      is_concurrency_limit = not exhaust && not auth && concurrency;
    }

module _ (loads : String → Option Json) where
  pub object_of : Option Json → Option Fields
  object_of none = none
  object_of (some v) = as_obj v

  -- `_extract_business_code(text)`
  unfoldable pub extract_business_code : String → Option String
  unfolding object_of
  extract_business_code text = elim (object_of (loads text)) [
    | none ↦ none
    | some fs ↦ business_code fs
  ]

  -- `_detect_captcha_challenge` of a response with its text.
  unfoldable pub detect_captcha_challenge : Response → Option Challenge
  detect_captcha_challenge r =
      if nonempty (strip (opt_text r.captcha_header))
      then some in_header
      else if one_of (extract_business_code r.text) captcha_business_codes
          || (((r.status_code == 200) || (r.status_code == 400) || (r.status_code == 403))
              && has_any captcha_body_markers r.text)
      then some in_body
      else if (r.status_code == 403) && is_captcha_error (lower r.text)
      then some in_text
      else none

  -- `_is_exhausted`
  unfoldable pub is_exhausted : ℕ → String → Bool
  is_exhausted status_code text =
      if status_code == 429
      then false
      else (status_code == 402)
        || one_of (extract_business_code text) exhaust_business_codes
        || has_any exhaust_keywords (lower text)

  -- `_is_risk_control`
  unfoldable pub is_risk_control : ℕ → String → Bool
  is_risk_control status_code text =
      (status_code == 405)
      || one_of (extract_business_code text) ("3012" ∷ [])
      || has_any (map lower risk_control_markers) (lower text)

  is_false : Json → Bool
  is_false (bool false) = true
  is_false _ = false

  pub is_error_payload : Fields → Option String → Bool
  unfolding is_false
  is_error_payload fs code =
      (is_some code && not (one_of code ("0" ∷ "200" ∷ [])))
      || is_false (Json.get "success" fs)
      || str_eq (opt_text (as_str (Json.get "type" fs))) "error"
      || is_obj (Json.get "error" fs)

  classify_code : Response → Option String → Classified
  unfolding by_family
  classify_code r code =
      by_family r.status_code code
        (one_of code ("3012" ∷ []) || is_risk_control r.status_code r.text)
        (one_of code captcha_business_codes || is_some (detect_captcha_challenge r))
        (one_of code exhaust_business_codes) (one_of code auth_invalid_business_codes)
        (one_of code concurrency_limit_business_codes) (one_of code rate_limit_business_codes)
        (one_of code server_error_business_codes)

  classify_object : Response → Option Fields → Classified
  unfolding is_error_payload classify_code
  classify_object r none = as_is r.status_code
  classify_object r (some fs) =
      if str_eq (opt_text (as_str (Json.get "type" fs))) "message"
        || not (is_error_payload fs (business_code fs))
      then as_is r.status_code
      else classify_code r (business_code fs)

  -- `_classify_business_error`
  unfoldable pub classify_business_error : Response → Classified
  unfolding classify_object object_of
  classify_business_error r = classify_object r (object_of (loads r.text))
