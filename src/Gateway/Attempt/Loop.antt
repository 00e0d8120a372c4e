-- ===== src/Gateway/Attempt/Loop.antt =====
-- app/routes/gateway.py: one pass of the loop in `_try_account_admitted`, in the order of its tests, and
-- the loop.
use zcode2api.Prelude.{
  ℕ, zero, suc, ◌+◌, String, Bool, false, not, ◌&&◌, ◌||◌, Option, none, some, leb, ltb, ◌==◌,
  if◌then◌else◌, is_some,
}
use zcode2api.Prelude.Json.{Json}
use zcode2api.Account.{exhausted}
use zcode2api.Gateway.Classify.{
  Response, Classified, detect_captcha_challenge, is_exhausted, is_risk_control,
  classify_business_error,
}
use zcode2api.Gateway.Attempt.{
  max_captcha_retries, Settings, Sent, Round, Run, Answer, Flow, then_do, failed, noted,
  mark_unless_stopped, settle, no_exit, no_connection, answered, goes_on, again, returns,
}
use zcode2api.Gateway.Attempt.Branches.{
  verify_step, build_step, lost, risk_step, denied_step, limited_step, server_step, relay_step,
  served,
}

module _ (loads : String → Option Json) where
  unfoldable pub challenged : Round → Run → Flow
  challenged round run =
      let r = record run { captcha_retries = run.captcha_retries + 1 } in
      if leb max_captcha_retries r.captcha_retries
      then failed round.now "captcha_retry_exhausted" "upstream" "upstream"
          (noted round.now false "challenged" r)
      else again r

  -- The branches for a status of 400 and above.
  unfoldable pub error_step : Settings → Round → Response → Classified → Run → Flow
  unfolding challenged risk_step denied_step limited_step server_step relay_step
  error_step set round r c run =
      let s = settle run in
      if run.needs_captcha && is_some (detect_captcha_challenge loads r)
      then challenged round s
      else if is_risk_control loads c.status r.text
      then risk_step round s
      else if is_exhausted loads c.status r.text
      then failed round.now "quota_exhausted" "upstream" "upstream" (
          mark_unless_stopped set round.now exhausted "exhausted"
            (noted round.now false "exhausted" s))
      else if (c.status == 401) || (c.status == 403)
      then denied_step set round s
      else if c.status == 429
      then limited_step set round c s
      else if leb 500 c.status
      then server_step set round s
      else relay_step round c.status r.text s

  -- A streamed success is not read; anything else is read and classified.
  abbrev pub classified : Bool → Response → Classified
  classified is_stream r =
      if is_stream && ltb r.status_code 400
      then record { status = r.status_code; code = none; is_concurrency_limit = false }
      else classify_business_error loads r

  unfoldable pub sent_step : Settings → Round → Bool → Sent → Run → Flow
  unfolding lost error_step served
  sent_step set round wants_stream no_exit run =
      failed round.now "region_offline" "network_routing" "region" (settle run)
  sent_step set round wants_stream no_connection run = lost set round "connect" "connect failed" run
  sent_step set round wants_stream (answered is_stream readable r) run =
      if not (is_stream && ltb r.status_code 400) && not readable
      then lost set round "read" "read failed" run
      else if leb 400 (classified is_stream r).status
      then error_step set round r (classified is_stream r) run
      else served round (wants_stream && is_stream) run

  -- One pass of the loop. `wants_stream` is the request's own field `stream`.
  unfoldable pub pass : Settings → Bool → Round → Run → Flow
  unfolding verify_step build_step sent_step
  pass set wants_stream round run =
      then_do (verify_step round run)
        (λ r. then_do (build_step set round r) (sent_step set round wants_stream round.sent))

  abbrev pub continue : Flow → (Run → Option (Answer × Run)) → Option (Answer × Run)
  continue (goes_on run) f = none
  continue (again run) f = f run
  continue (returns a run) f = some (a, run)

  -- The loop, on fuel; `rounds i` is what pass number `i` meets. No part of `pass` goes on beyond it.
  unfoldable pub attempt : Settings → Bool → (ℕ → Round) → ℕ → ℕ → Run → Option (Answer × Run)
  attempt set wants_stream rounds zero i run = none
  attempt set wants_stream rounds (suc fuel) i run =
      continue (pass set wants_stream (rounds i) run) (attempt set wants_stream rounds fuel (suc i))
