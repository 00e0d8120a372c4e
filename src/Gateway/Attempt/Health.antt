-- ===== src/Gateway/Attempt/Health.antt =====
-- app/routes/gateway.py: an attempt does not bring a banned or invalid account back to service.
use mathlib.Core.Path.{subst}
use zcode2api.Prelude.{
  ℕ, zero, suc, ◌≡◌, String, Bool, true, false, not, ◌&&◌, ◌||◌, Option, some, if◌then◌else◌, arith,
  is_some, ◌==◌, leb, ltb,
}
use zcode2api.Prelude.Json.{Json}
use zcode2api.Account.{exhausted, ban_for_risk, record_result}
use zcode2api.Gateway.Classify.{
  Response, Classified, is_exhausted, is_risk_control, detect_captcha_challenge,
}
use zcode2api.Gateway.Attempt.{
  Settings, Captcha, solved, unsolved, Sent, no_exit, no_connection, answered, Round, Run, Answer,
  Flow, goes_on, again, returns, then_do, is_stopped, settle, failed, mark_unless_stopped, noted,
}
use zcode2api.Gateway.Attempt.Branches.{
  captcha_failed, captcha_step, verify_step, build_step, lost, risk_step, denied_step, limited_step,
  retry, server_step, relay_step, served, healthy,
}
use zcode2api.Gateway.Attempt.Loop.{
  challenged, error_step, classified, sent_step, pass, continue, attempt,
}

-- The account of the run is invalid or disabled, wherever the body goes on.
abbrev Stopped : Flow → Type 0
Stopped (goes_on r) = is_stopped r.account ≡ true
Stopped (again r) = is_stopped r.account ≡ true
Stopped (returns a r) = is_stopped r.account ≡ true

Stopped-if : (b : Bool) (f g : Flow) → Stopped f → Stopped g → Stopped (if b then f else g)
Stopped-if true f g h k = h
Stopped-if false f g h k = k

chain-Stopped :
    (b1 b2 b3 b4 b5 b6 : Bool) (f1 f2 f3 f4 f5 f6 f7 : Flow)
    → Stopped f1
    → Stopped f2
    → Stopped f3
    → Stopped f4
    → Stopped f5
    → Stopped f6
    → Stopped f7
    → Stopped (
        if b1
        then f1
        else if b2
        then f2
        else if b3
        then f3
        else if b4
        then f4
        else if b5
        then f5
        else if b6
        then f6
        else f7)
chain-Stopped b1 b2 b3 b4 b5 b6 f1 f2 f3 f4 f5 f6 f7 h1 h2 h3 h4 h5 h6 h7 = Stopped-if b1 f1 _ h1 (
    Stopped-if b2 f2 _ h2 (
      Stopped-if b3 f3 _ h3
        (Stopped-if b4 f4 _ h4 (Stopped-if b5 f5 _ h5 (Stopped-if b6 f6 f7 h6 h7)))))

then_do-Stopped :
    (f : Flow) (g : Run → Flow)
    → Stopped f
    → ((r : Run) → is_stopped r.account ≡ true → Stopped (g r))
    → Stopped (then_do f g)
then_do-Stopped (goes_on r) g h k = k r h
then_do-Stopped (again r) g h k = h
then_do-Stopped (returns a r) g h k = h

module _ (set : Settings) (round : Round) where
  captcha_step-Stopped :
      (c : Captcha) (run : Run) → is_stopped run.account ≡ true → Stopped (captcha_step round c run)
  unfolding captcha_step captcha_failed record_result
  captcha_step-Stopped solved run h = ground (arith, h)
  captcha_step-Stopped (unsolved repeated) run h = ground (arith, h)

  verify_step-Stopped :
      (run : Run) → is_stopped run.account ≡ true → Stopped (verify_step round run)
  unfolding verify_step
  verify_step-Stopped run h =
      Stopped-if run.needs_captcha (captcha_step round round.captcha run) (goes_on run)
        (captcha_step-Stopped round.captcha run h) h

  build_step-Stopped :
      (run : Run) → is_stopped run.account ≡ true → Stopped (build_step set round run)
  unfolding build_step record_result
  build_step-Stopped run h = ground (arith, h)

  risk_step-Stopped : (run : Run) → Stopped (risk_step round run)
  unfolding risk_step ban_for_risk record_result
  risk_step-Stopped run = ground arith

  denied_step-Stopped : (run : Run) → Stopped (denied_step set round run)
  unfolding denied_step record_result
  denied_step-Stopped run = ground arith

  limited_step-Stopped :
      (c : Classified) (run : Run)
      → is_stopped run.account ≡ true
      → Stopped (limited_step set round c run)
  unfolding limited_step retry record_result
  limited_step-Stopped c run h = ground (arith, h)

  server_step-Stopped :
      (run : Run) → is_stopped run.account ≡ true → Stopped (server_step set round run)
  unfolding server_step retry record_result
  server_step-Stopped run h = ground (arith, h)

  relay_step-Stopped :
      (status : ℕ) (text : String) (run : Run)
      → is_stopped run.account ≡ true
      → Stopped (relay_step round status text run)
  unfolding relay_step record_result
  relay_step-Stopped status text run h = ground (arith, h)

  exhausted-Stopped :
      (run : Run)
      → is_stopped run.account ≡ true
      → Stopped (
          failed round.now "quota_exhausted" "upstream" "upstream" (
            mark_unless_stopped set round.now exhausted "exhausted"
              (noted round.now false "exhausted" run)))
  unfolding record_result
  exhausted-Stopped run h = ground (arith, h)

  served-Stopped :
      (is_stream : Bool) (run : Run)
      → is_stopped run.account ≡ true
      → Stopped (served round is_stream run)
  unfolding served healthy record_result
  served-Stopped is_stream run h = ground (arith, h)

  lost-Stopped :
      (stage error : String) (run : Run)
      → is_stopped run.account ≡ true
      → Stopped (lost set round stage error run)
  unfolding lost record_result
  lost-Stopped stage error run h = ground (arith, h)

  module _ (loads : String → Option Json) where
    challenged-Stopped :
        (run : Run) → is_stopped run.account ≡ true → Stopped (challenged loads round run)
    unfolding challenged record_result
    challenged-Stopped run h = ground (arith, h)

    error_step-Stopped :
        (r : Response) (c : Classified) (run : Run)
        → is_stopped run.account ≡ true
        → Stopped (error_step loads set round r c run)
    unfolding error_step
    error_step-Stopped r c run h =
        let s = settle run in
        chain-Stopped (run.needs_captcha && is_some (detect_captcha_challenge loads r))
          (is_risk_control loads c.status r.text) (is_exhausted loads c.status r.text)
          ((c.status == 401) || (c.status == 403)) (c.status == 429) (leb 500 c.status)
          (challenged loads round s) (risk_step round s)
          (failed round.now "quota_exhausted" "upstream" "upstream" (
            mark_unless_stopped set round.now exhausted "exhausted"
              (noted round.now false "exhausted" s)))
          (denied_step set round s) (limited_step set round c s) (server_step set round s)
          (relay_step round c.status r.text s) (challenged-Stopped s h) (risk_step-Stopped s)
          (exhausted-Stopped s h) (denied_step-Stopped s) (limited_step-Stopped c s h)
          (server_step-Stopped s h) (relay_step-Stopped c.status r.text s h)

    sent_step-Stopped :
        (wants_stream : Bool) (sent : Sent) (run : Run)
        → is_stopped run.account ≡ true
        → Stopped (sent_step loads set round wants_stream sent run)
    unfolding sent_step
    sent_step-Stopped wants_stream no_exit run h = h
    sent_step-Stopped wants_stream no_connection run h =
        lost-Stopped "connect" "connect failed" run h
    sent_step-Stopped wants_stream (answered is_stream readable r) run h =
        Stopped-if (not (is_stream && ltb r.status_code 400) && not readable)
          (lost set round "read" "read failed" run)
          (if leb 400 (classified loads is_stream r).status
            then error_step loads set round r (classified loads is_stream r) run
            else served round (wants_stream && is_stream) run)
          (lost-Stopped "read" "read failed" run h)
          (Stopped-if (leb 400 (classified loads is_stream r).status)
            (error_step loads set round r (classified loads is_stream r) run)
            (served round (wants_stream && is_stream) run)
            (error_step-Stopped r (classified loads is_stream r) run h)
            (served-Stopped (wants_stream && is_stream) run h))

    pass-Stopped :
        (wants_stream : Bool) (run : Run)
        → is_stopped run.account ≡ true
        → Stopped (pass loads set wants_stream round run)
    unfolding pass
    pass-Stopped wants_stream run h =
        then_do-Stopped (verify_step round run) _ (verify_step-Stopped run h) (λ r e.
          then_do-Stopped (build_step set round r) _ (build_step-Stopped r e)
            (λ s k. sent_step-Stopped wants_stream round.sent s k))

module _ (loads : String → Option Json) (set : Settings) where
  continue-Stopped :
      (f : Flow) (g : Run → Option (Answer × Run)) (a : Answer) (r : Run)
      → Stopped f
      → ((s : Run) → is_stopped s.account ≡ true → g s ≡ some (a, r) → is_stopped r.account ≡ true)
      → continue loads f g ≡ some (a, r)
      → is_stopped r.account ≡ true
  continue-Stopped (goes_on s) g a r h k e = absurd (ground (arith, e))
  continue-Stopped (again s) g a r h k e = k s h e
  continue-Stopped (returns b s) g a r h k e =
      let same : s ≡ r = ground (arith, e) in
      subst (λ (x : Run). is_stopped x.account ≡ true) same h

  -- An account that is invalid or disabled when an attempt starts is invalid or disabled when it answers,
  -- whatever the upstream answered: neither a success through its key nor a failure makes it active,
  -- exhausted or cooling.
  pub attempt-is_stopped :
      (wants_stream : Bool) (rounds : ℕ → Round) (fuel i : ℕ) (run : Run) (a : Answer) (r : Run)
      → is_stopped run.account ≡ true
      → attempt loads set wants_stream rounds fuel i run ≡ some (a, r)
      → is_stopped r.account ≡ true
  unfolding attempt
  attempt-is_stopped wants_stream rounds zero i run a r h e = absurd (ground (arith, e))
  attempt-is_stopped wants_stream rounds (suc fuel) i run a r h e =
      continue-Stopped (pass loads set wants_stream (rounds i) run)
        (attempt loads set wants_stream rounds fuel (suc i)) a r
        (pass-Stopped set (rounds i) loads wants_stream run h)
        (λ s k. attempt-is_stopped wants_stream rounds fuel (suc i) s a r k) e
