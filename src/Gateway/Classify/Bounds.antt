-- ===== src/Gateway/Classify/Bounds.antt =====
-- app/routes/gateway.py: what a business error is taken for, in the order of the tests.
use zcode2api.Prelude.{
  if◌then◌else◌, ◌≡◌, ◌≢◌, ◌⊎◌, refl, ap, String, Bool, true, false, not, ◌||◌, Option, none, some,
  [], ◌∷◌, str_eq, opt_text, arith, is_some,
}
use zcode2api.Prelude.Json
use zcode2api.Prelude.Json.{Json, Fields, as_str, obj, null, bool, int, float, str, arr}
use zcode2api.Gateway.Classify.{
  Response, Classified, one_of, business_code, is_risk_control, detect_captcha_challenge,
  classify_business_error, classify_object, classify_code, by_family, is_error_payload, object_of,
  as_is, exhaust_business_codes, concurrency_limit_business_codes, server_error_business_codes,
  auth_invalid_business_codes, captcha_business_codes, rate_limit_business_codes,
}
use zcode2api.Gateway.Classify.Families.{Family, status_for-Family, limit_only}

module _ (loads : String → Option Json) where
  -- The body is an object that is no message and says an error.
  pub record ReadsError (r : Response) (fs : Fields) : Type 0 where
    pub an_object : loads r.text ≡ some (obj fs)
    pub no_message : str_eq (opt_text (as_str (Json.get "type" fs))) "message" ≡ false
    pub an_error : is_error_payload loads fs (business_code fs) ≡ true

  -- Risk control is shown by the code, the status or a marker in the text.
  abbrev pub shows_risk : Response → Fields → Bool
  shows_risk r fs =
      one_of (business_code fs) ("3012" ∷ []) || is_risk_control loads r.status_code r.text

  abbrev pub shows_challenge : Response → Fields → Bool
  shows_challenge r fs =
      one_of (business_code fs) captcha_business_codes || is_some (detect_captcha_challenge loads r)

  -- What a response may be classified as.
  pub data Sound (r : Response) (c : Classified) : Type 0 where
    no_object :
        object_of loads (loads r.text) ≡ none
        → c.status ≡ r.status_code
        → c.is_concurrency_limit ≡ false
        → Sound r c
    no_error :
        (fs : Fields)
        → loads r.text ≡ some (obj fs)
        → (str_eq (opt_text (as_str (Json.get "type" fs))) "message"
            || not (is_error_payload loads fs (business_code fs)))
          ≡ true
        → c.status ≡ r.status_code
        → c.is_concurrency_limit ≡ false
        → Sound r c
    risk_control :
        (fs : Fields)
        → ReadsError r fs
        → shows_risk r fs ≡ true
        → c.status ≡ 405
        → c.is_concurrency_limit ≡ false
        → Sound r c
    challenged :
        (fs : Fields)
        → ReadsError r fs
        → shows_risk r fs ≡ false
        → shows_challenge r fs ≡ true
        → ((c.status ≡ 400) × (r.status_code ≡ 400)) ⊎ ((c.status ≡ 403) × (r.status_code ≢ 400))
        → c.is_concurrency_limit ≡ false
        → Sound r c
    by_code :
        (fs : Fields)
        → ReadsError r fs
        → shows_risk r fs ≡ false
        → shows_challenge r fs ≡ false
        → Family (business_code fs) r.status_code c.status
        → c.is_concurrency_limit ≡ one_of (business_code fs) concurrency_limit_business_codes
        → Sound r c

  by_family-Sound :
      (r : Response) (fs : Fields) (risk captcha : Bool)
      → ReadsError r fs
      → shows_risk r fs ≡ risk
      → shows_challenge r fs ≡ captcha
      → Sound r (
          by_family r.status_code
            (business_code fs)
            risk
            captcha
            (one_of (business_code fs) exhaust_business_codes)
            (one_of (business_code fs) auth_invalid_business_codes)
            (one_of (business_code fs) concurrency_limit_business_codes)
            (one_of (business_code fs) rate_limit_business_codes)
            (one_of (business_code fs) server_error_business_codes))
  unfolding by_family
  by_family-Sound r fs true captcha reads e g = risk_control fs reads e refl refl
  by_family-Sound r fs false true reads e g = challenged fs reads e g (ground arith) refl
  by_family-Sound r fs false false reads e g =
      by_code fs reads e g
        (status_for-Family (business_code fs) r.status_code _ _ _ _ _ refl refl refl refl refl)
        (limit_only (business_code fs))

  error-Sound :
      (r : Response) (fs : Fields)
      → ReadsError r fs
      → Sound r (classify_code loads r (business_code fs))
  unfolding classify_code
  error-Sound r fs reads =
      by_family-Sound r fs (shows_risk r fs) (shows_challenge r fs) reads refl refl

  fields-Sound :
      (r : Response) (fs : Fields) (message wrong : Bool)
      → loads r.text ≡ some (obj fs)
      → str_eq (opt_text (as_str (Json.get "type" fs))) "message" ≡ message
      → is_error_payload loads fs (business_code fs) ≡ wrong
      → Sound r (
          if message || not wrong
          then as_is r.status_code
          else classify_code loads r (business_code fs))
  fields-Sound r fs true wrong l m e = no_error fs l (ground (arith, m)) refl refl
  fields-Sound r fs false false l m e = no_error fs l (ground (arith, m, e)) refl refl
  fields-Sound r fs false true l m e =
      error-Sound r fs (record { an_object = l; no_message = m; an_error = e })

  object-Sound :
      (r : Response) (v : Option Json)
      → loads r.text ≡ v
      → Sound r (classify_object loads r (object_of loads v))
  unfolding classify_object object_of
  object-Sound r none e = no_object (ap (object_of loads) e) refl refl
  object-Sound r (some (obj fs)) e = fields-Sound r fs _ _ e refl refl
  object-Sound r (some null) e = no_object (ap (object_of loads) e) refl refl
  object-Sound r (some (bool x)) e = no_object (ap (object_of loads) e) refl refl
  object-Sound r (some (int x)) e = no_object (ap (object_of loads) e) refl refl
  object-Sound r (some (float x)) e = no_object (ap (object_of loads) e) refl refl
  object-Sound r (some (str x)) e = no_object (ap (object_of loads) e) refl refl
  object-Sound r (some (arr x)) e = no_object (ap (object_of loads) e) refl refl

  -- What a response is classified as, by its body. One that is no object, is a message or says no error
  -- keeps its status. An error that shows risk control by its code, its status or the markers of its text is
  -- a 405; otherwise one that shows a captcha challenge is a 403, or stays a 400; otherwise its business code
  -- decides: 402 where the quota is exhausted, 401 for an invalid key, 429 for a limit, at least 500 for
  -- a failed server, and any other code keeps a status of an error and makes a success a 400. It is a limit
  -- of concurrency only in this last case, exactly for the codes of one.
  pub classify_business_error-Sound : (r : Response) → Sound r (classify_business_error loads r)
  unfolding classify_business_error
  classify_business_error-Sound r = object-Sound r (loads r.text) refl
