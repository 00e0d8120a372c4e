-- ===== src/Gateway/Tests.antt =====
-- Runs of the classification and of an attempt, and their theorems at concrete responses.
use zcode2api.Prelude.{
  ℕ, ◌+◌, ◌≡◌, refl, String, true, false, false, Option, none, some, [], ◌∷◌, pos, str_eq,
  if◌then◌else◌, ◌==◌, arith, is_some, strip, starts, contains, lower,
}
use zcode2api.Prelude.Json
use zcode2api.Prelude.Json.{Json, Fields, obj, field, end, int, str, show, decimal, is_truthy}
use zcode2api.Account.{
  Account, active, disabled, jwt, selection_exclusion, record_result, ban_for_risk,
  has_apikey_fallback,
}
use zcode2api.Gateway.Classify.{
  Response, business_code, extract_business_code, is_captcha_error, detect_captcha_challenge,
  is_exhausted, is_risk_control, classify_business_error,
}
use zcode2api.Gateway.Classify.Bounds.{Sound, classify_business_error-Sound}
use zcode2api.Gateway.Attempt.{
  Settings, solved, answered, taken, Round, Run, Answer, upstream, is_stopped,
}
use zcode2api.Gateway.Attempt.Branches.{is_thinking_rejection}
use zcode2api.Gateway.Attempt.Loop.{pass, attempt}
use zcode2api.Gateway.Attempt.Ends.{attempt-is_some}
use zcode2api.Gateway.Attempt.Health.{attempt-is_stopped}
use zcode2api.Gateway.Attempt.Settled.{attempt-settled}
use zcode2api.Chat.Stream.{create, feed, relay}
use zcode2api.Responses.Stream.Serve.{closes, stream_incomplete}
use zcode2api.Gateway.ChatStream.{Served, error, close_stream, serve}
use zcode2api.Gateway.ChatStream.Told.{Told, Ended, serve-Told}

abbrev banned : Fields
banned = field "code" (int (pos 3012)) end

-- An error of another code, whose text has a marker of risk control.
abbrev marked : Fields
marked = field "code" (int (pos 1006)) end

loads : String → Option Json
loads s =
    if str_eq s "banned"
    then some (obj banned)
    else if str_eq s "Unusual activity"
    then some (obj marked)
    else none

program : Unit {0}
unfolding loads business_code extract_business_code is_captcha_error detect_captcha_challenge
    is_exhausted is_risk_control classify_business_error is_thinking_rejection pass attempt
    selection_exclusion record_result ban_for_risk has_apikey_fallback strip starts contains lower
    show decimal is_truthy Json.get
program = tt

abbrev ban : Response
ban = record { status_code = 200; captcha_header = none; text = "banned" }

abbrev unusual : Response
unusual = record { status_code = 200; captcha_header = none; text = "Unusual activity" }

unusual_status : (classify_business_error loads unusual).status ≡ 405
unfolding program
unusual_status = refl

abbrev busy : Response
busy = record { status_code = 429; captcha_header = none; text = "slow down" }

abbrev good : Response
good = record { status_code = 200; captcha_header = none; text = "" }

-- A ban in the body of a 200 is a 405.
ban_status : (classify_business_error loads ban).status ≡ 405
unfolding program
ban_status = refl

classify_business_error-Sound_example : Sound loads ban (classify_business_error loads ban)
classify_business_error-Sound_example = classify_business_error-Sound loads ban

abbrev account : Account
account = record {
  id = "a-1";
  name = "a";
  provider = "zai";
  mode = jwt;
  jwt_token = some "h.p.s";
  key = none;
  enabled = true;
  status = active;
  quota = [];
  plans = [];
  plan_slots = [];
  claimable_plans = [];
  use_count = 0;
  fail_count = 0;
  risk_strikes = 0;
  recent_results = [];
  last_used_at = none;
  last_checked_at = none;
  cooling_until = none;
  claim_blocked_until = none;
  last_error = none;
  created_at = 100;
  install_id = none;
  installed_at = none;
  proxy = none;
  assigned_region = none;
}

abbrev settings : Settings
settings = record { retry_429_times = 1; retry_5xx_times = 1; cooling_seconds = 60 }

abbrev fresh : Run
fresh = record {
  account = account;
  saved = none;
  holds_slot = true;
  captcha_retries = 0;
  retries_429 = 0;
  retries_5xx = 0;
  needs_captcha = true;
  force_fallback = false;
  retried_strip = false;
  attempted = true;
  history = [];
  history_truncated = 0;
  begun = 0;
  ended = 0;
}

round : Response → Round
round r = record {
  now = 200;
  captcha = solved;
  after_captcha = taken;
  after_wait = taken;
  build_error = none;
  admitted = true;
  sent = answered true true r;
  has_thinking = false;
}

-- A limit first, then a stream.
rounds : ℕ → Round
unfolding round
rounds i = if i == 0 then round busy else round good

attempt-is_some_example : is_some (attempt loads settings true rounds 10 0 fresh) ≡ true
attempt-is_some_example = attempt-is_some settings loads true rounds fresh 10 (omega arith)

abbrev stopped : Run
stopped = record fresh { account = record account { status = disabled } }

-- The pair that an attempt comes to.
abbrev outcome : Option (Answer × Run) → Answer × Run
outcome none = (upstream false, fresh)
outcome (some p) = p

attempt-is_stopped_example :
    is_stopped (outcome (attempt loads settings true rounds 10 0 stopped)).1.account ≡ true
unfolding program rounds round
attempt-is_stopped_example =
    attempt-is_stopped loads settings true rounds 10 0 stopped
      (outcome (attempt loads settings true rounds 10 0 stopped)).0
      (outcome (attempt loads settings true rounds 10 0 stopped)).1 refl refl

attempt-settled_example :
    (outcome (attempt loads settings true rounds 10 0 fresh)).1.begun
    ≡ (outcome (attempt loads settings true rounds 10 0 fresh)).1.ended + 1
unfolding program rounds round
attempt-settled_example =
    attempt-settled loads settings true rounds 10 0 fresh
      (outcome (attempt loads settings true rounds 10 0 fresh)).0
      (outcome (attempt loads settings true rounds 10 0 fresh)).1 refl refl

abbrev event : String → Fields
event t = field "type" (str t) end

-- A stream of events that breaks off without its last event is told as a failure.
broken_off :
    (serve true closes "" (event "ping" ∷ []) false (create "glm" "c" 7)).sent
    ≡ error stream_incomplete ∷ []
unfolding serve close_stream relay feed program
broken_off = refl

serve-Told_example :
    (let s : Served = serve true closes "" (event "message_stop" ∷ []) false (create "glm" "c" 7) in
      Told s × Ended true true s)
unfolding program
serve-Told_example = serve-Told true closes "" (event "message_stop" ∷ []) (create "glm" "c" 7)
