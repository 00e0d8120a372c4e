-- ===== src/Gateway/Attempt/Ends.antt =====
-- app/routes/gateway.py: the loop of `_try_account_admitted` ends, and settles each request it began.
use zcode2api.Prelude.{
  ℕ, zero, suc, ◌+◌, ◌-◌, ◌≤◌, ◌<◌, ◌≡◌, refl, String, Bool, true, false, not, ◌&&◌, ◌||◌, Option,
  if◌then◌else◌, arith, is_some, ◌==◌, leb, ltb,
}
use zcode2api.Prelude.Json.{Json}
use zcode2api.Account.{exhausted}
use zcode2api.Gateway.Classify.{
  Response, Classified, is_exhausted, is_risk_control, detect_captcha_challenge,
}
use zcode2api.Gateway.Attempt.{
  Settings, Captcha, solved, unsolved, Sent, no_exit, no_connection, answered, Round, Run, Answer,
  Flow, goes_on, again, returns, then_do, max_captcha_retries, settle, failed, mark_unless_stopped,
  noted,
}
use zcode2api.Gateway.Attempt.Branches.{
  captcha_failed, captcha_step, verify_step, build_step, lost, risk_step, denied_step, limited_step,
  retry, server_step, relay_step, served,
}
use zcode2api.Gateway.Attempt.Loop.{
  challenged, error_step, classified, sent_step, pass, continue, attempt,
}

-- How many passes the loop can still make.
unfoldable pub budget : Settings → Run → ℕ
budget set run =
    (if run.needs_captcha then set.retry_429_times + 2 else 0)
    + (max_captcha_retries - run.captcha_retries)
    + (set.retry_429_times - run.retries_429)
    + (set.retry_5xx_times - run.retries_5xx)
    + (if run.retried_strip then 0 else 1)

module _ (set : Settings) where
  -- A part of the body spends nothing or, if it starts the loop again, at least one.
  abbrev Spends : Run → Flow → Type 0
  Spends run (goes_on r) = budget set r ≤ budget set run
  Spends run (again r) = budget set r < budget set run
  Spends run (returns a r) = Unit

  -- The last part also never goes on.
  abbrev Finishes : Run → Flow → Type 0
  Finishes run (goes_on r) = ⊥
  Finishes run (again r) = budget set r < budget set run
  Finishes run (returns a r) = Unit

  less : (run r : Run) (f : Flow) → budget set r ≤ budget set run → Finishes r f → Finishes run f
  less run r (goes_on s) h k = k
  less run r (again s) h k = omega (arith, h, k)
  less run r (returns a s) h k = tt

  captcha_step-Spends :
      (round : Round) (c : Captcha) (run : Run)
      → run.needs_captcha ≡ true
      → Spends run (captcha_step round c run)
  unfolding captcha_step captcha_failed budget
  captcha_step-Spends round solved run h = ground (arith, h)
  captcha_step-Spends round (unsolved repeated) run h = ground (arith, h)

  verify_step-Spends : (round : Round) (run : Run) → Spends run (verify_step round run)
  unfolding verify_step
  verify_step-Spends round run =
      elim run.needs_captcha
          as (λ b.
            run.needs_captcha ≡ b
            → Spends run (if b then captcha_step round round.captcha run else goes_on run)) [
              | true ↦ λ h. captcha_step-Spends round round.captcha run h
              | false ↦ λ h. omega arith
            ]
        refl

  build_step-Spends : (round : Round) (run : Run) → Spends run (build_step set round run)
  unfolding build_step budget
  build_step-Spends round run = ground arith

  risk_step-Finishes : (round : Round) (run : Run) → Finishes run (risk_step round run)
  unfolding risk_step budget
  risk_step-Finishes round run = ground arith

  denied_step-Finishes : (round : Round) (run : Run) → Finishes run (denied_step set round run)
  unfolding denied_step budget
  denied_step-Finishes round run = ground arith

  limited_step-Finishes :
      (round : Round) (c : Classified) (run : Run) → Finishes run (limited_step set round c run)
  unfolding limited_step retry budget
  limited_step-Finishes round c run = ground arith

  server_step-Finishes : (round : Round) (run : Run) → Finishes run (server_step set round run)
  unfolding server_step retry budget
  server_step-Finishes round run = ground arith

  relay_step-Finishes :
      (round : Round) (status : ℕ) (text : String) (run : Run)
      → Finishes run (relay_step round status text run)
  unfolding relay_step budget
  relay_step-Finishes round status text run = ground arith

  module _ (loads : String → Option Json) where
    challenged-Finishes : (round : Round) (run : Run) → Finishes run (challenged loads round run)
    unfolding challenged budget
    challenged-Finishes round run = ground arith

    Finishes-if :
        (run : Run) (b : Bool) (f g : Flow)
        → Finishes run f
        → Finishes run g
        → Finishes run (if b then f else g)
    Finishes-if run true f g h k = h
    Finishes-if run false f g h k = k

    chain-Finishes :
        (run : Run) (b1 b2 b3 b4 b5 b6 : Bool) (f1 f2 f3 f4 f5 f6 f7 : Flow)
        → Finishes run f1
        → Finishes run f2
        → Finishes run f3
        → Finishes run f4
        → Finishes run f5
        → Finishes run f6
        → Finishes run f7
        → Finishes run (
            if b1
            then f1
            else if b2
            then f2
            else if b3
            then f3
            else if b4
            then f4
            else if b5
            then f5
            else if b6
            then f6
            else f7)
    chain-Finishes run b1 b2 b3 b4 b5 b6 f1 f2 f3 f4 f5 f6 f7 h1 h2 h3 h4 h5 h6 h7 =
        Finishes-if run b1 f1 _ h1 (
          Finishes-if run b2 f2 _ h2 (
            Finishes-if run b3 f3 _ h3 (
              Finishes-if run b4 f4 _ h4
                (Finishes-if run b5 f5 _ h5 (Finishes-if run b6 f6 f7 h6 h7)))))

    error_step-Finishes :
        (round : Round) (r : Response) (c : Classified) (run : Run)
        → Finishes run (error_step loads set round r c run)
    unfolding error_step budget
    error_step-Finishes round r c run =
        let s = settle run in
        chain-Finishes run (run.needs_captcha && is_some (detect_captcha_challenge loads r))
          (is_risk_control loads c.status r.text) (is_exhausted loads c.status r.text)
          ((c.status == 401) || (c.status == 403)) (c.status == 429) (leb 500 c.status)
          (challenged loads round s) (risk_step round s)
          (failed round.now "quota_exhausted" "upstream" "upstream" (
            mark_unless_stopped set round.now exhausted "exhausted"
              (noted round.now false "exhausted" s)))
          (denied_step set round s) (limited_step set round c s) (server_step set round s)
          (relay_step round c.status r.text s) (challenged-Finishes round s)
          (risk_step-Finishes round s) tt (denied_step-Finishes round s)
          (limited_step-Finishes round c s) (server_step-Finishes round s)
          (relay_step-Finishes round c.status r.text s)

    sent_step-Finishes :
        (round : Round) (wants_stream : Bool) (sent : Sent) (run : Run)
        → Finishes run (sent_step loads set round wants_stream sent run)
    unfolding sent_step lost served
    sent_step-Finishes round wants_stream no_exit run = tt
    sent_step-Finishes round wants_stream no_connection run = tt
    sent_step-Finishes round wants_stream (answered is_stream readable r) run =
        Finishes-if run (not (is_stream && ltb r.status_code 400) && not readable)
          (lost set round "read" "read failed" run)
          (if leb 400 (classified loads is_stream r).status
            then error_step loads set round r (classified loads is_stream r) run
            else served round (wants_stream && is_stream) run)
          tt
          (Finishes-if run (leb 400 (classified loads is_stream r).status)
            (error_step loads set round r (classified loads is_stream r) run)
            (served round (wants_stream && is_stream) run)
            (error_step-Finishes round r (classified loads is_stream r) run) tt)

    then_do-Finishes :
        (run : Run) (f : Flow) (g : Run → Flow)
        → Spends run f
        → ((r : Run) → Finishes r (g r))
        → Finishes run (then_do f g)
    then_do-Finishes run (goes_on r) g h k = less run r (g r) h (k r)
    then_do-Finishes run (again r) g h k = h
    then_do-Finishes run (returns a r) g h k = tt

    pass-Finishes :
        (wants_stream : Bool) (round : Round) (run : Run)
        → Finishes run (pass loads set wants_stream round run)
    unfolding pass
    pass-Finishes wants_stream round run =
        then_do-Finishes run (verify_step round run) _ (verify_step-Spends round run) (λ r.
          then_do-Finishes r (build_step set round r) _ (build_step-Spends round r)
            (λ s. sent_step-Finishes round wants_stream round.sent s))

    continue-ends :
        (run : Run) (f : Flow) (n : ℕ) (g : Run → Option (Answer × Run))
        → Finishes run f
        → budget set run ≤ n
        → ((r : Run) → budget set r < n → is_some (g r) ≡ true)
        → is_some (continue loads f g) ≡ true
    continue-ends run (goes_on r) n g h b k = absurd h
    continue-ends run (again r) n g h b k = k r (omega (arith, h, b))
    continue-ends run (returns a r) n g h b k = refl

    attempt-ends_from :
        (wants_stream : Bool) (rounds : ℕ → Round) (fuel i : ℕ) (run : Run)
        → budget set run < fuel
        → is_some (attempt loads set wants_stream rounds fuel i run) ≡ true
    unfolding attempt
    attempt-ends_from wants_stream rounds zero i run h = absurd (omega (arith, h))
    attempt-ends_from wants_stream rounds (suc fuel) i run h =
        continue-ends run (pass loads set wants_stream (rounds i) run) fuel
          (attempt loads set wants_stream rounds fuel (suc i))
          (pass-Finishes wants_stream (rounds i) run) (omega (arith, h))
          (λ r l. attempt-ends_from wants_stream rounds fuel (suc i) r (omega (arith, l)))

    -- Whatever the upstream answers, and however many retries were made before, an attempt comes to an
    -- answer within a number of passes that is fixed by its settings: the retries of a 429 twice, those
    -- of a server error and of a captcha once, and four more.
    pub attempt-is_some :
        (wants_stream : Bool) (rounds : ℕ → Round) (run : Run) (fuel : ℕ)
        → set.retry_429_times + set.retry_429_times + set.retry_5xx_times + max_captcha_retries + 3
          < fuel
        → is_some (attempt loads set wants_stream rounds fuel 0 run) ≡ true
    unfolding budget
    attempt-is_some wants_stream rounds run fuel h =
        attempt-ends_from wants_stream rounds fuel 0 run (ground (arith, h))
