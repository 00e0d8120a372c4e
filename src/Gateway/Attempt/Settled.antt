-- ===== src/Gateway/Attempt/Settled.antt =====
-- app/routes/gateway.py: an attempt settles with the circuit breaker each request that it began.
use mathlib.Core.Path.{subst}
use zcode2api.Prelude.{
  ℕ, zero, suc, ◌+◌, ◌≡◌, String, Bool, true, false, not, ◌&&◌, ◌||◌, Option, some, if◌then◌else◌,
  arith, is_some, ◌==◌, leb, ltb,
}
use zcode2api.Prelude.Json.{Json}
use zcode2api.Account.{exhausted}
use zcode2api.Gateway.Classify.{
  Response, Classified, is_exhausted, is_risk_control, detect_captcha_challenge,
}
use zcode2api.Gateway.Attempt.{
  Settings, Captcha, solved, unsolved, Sent, no_exit, no_connection, answered, Round, Run, Answer,
  upstream, Flow, goes_on, again, returns, then_do, settle, failed, mark_unless_stopped, noted,
}
use zcode2api.Gateway.Attempt.Branches.{
  captcha_failed, captcha_step, verify_step, build_step, lost, risk_step, denied_step, limited_step,
  retry, server_step, relay_step, served,
}
use zcode2api.Gateway.Attempt.Loop.{
  challenged, error_step, classified, sent_step, pass, continue, attempt,
}

-- A streamed response takes the settling of its request with it.
abbrev pub open_requests : Answer → ℕ
open_requests (upstream true) = 1
open_requests _ = 0

-- The requests begun are those that ended, and `k` more where the body goes on.
abbrev Settled : ℕ → Flow → Type 0
Settled k (goes_on r) = r.begun ≡ r.ended + k
Settled k (again r) = r.begun ≡ r.ended
Settled k (returns a r) = r.begun ≡ r.ended + open_requests a

Settled-if :
    (n : ℕ) (b : Bool) (f g : Flow) → Settled n f → Settled n g → Settled n (if b then f else g)
Settled-if n true f g h k = h
Settled-if n false f g h k = k

chain-Settled :
    (b1 b2 b3 b4 b5 b6 : Bool) (f1 f2 f3 f4 f5 f6 f7 : Flow)
    → Settled 0 f1
    → Settled 0 f2
    → Settled 0 f3
    → Settled 0 f4
    → Settled 0 f5
    → Settled 0 f6
    → Settled 0 f7
    → Settled 0 (
        if b1
        then f1
        else if b2
        then f2
        else if b3
        then f3
        else if b4
        then f4
        else if b5
        then f5
        else if b6
        then f6
        else f7)
chain-Settled b1 b2 b3 b4 b5 b6 f1 f2 f3 f4 f5 f6 f7 h1 h2 h3 h4 h5 h6 h7 =
    Settled-if 0 b1 f1 _ h1 (
      Settled-if 0 b2 f2 _ h2 (
        Settled-if 0 b3 f3 _ h3
          (Settled-if 0 b4 f4 _ h4 (Settled-if 0 b5 f5 _ h5 (Settled-if 0 b6 f6 f7 h6 h7)))))

then_do-Settled :
    (n : ℕ) (f : Flow) (g : Run → Flow)
    → Settled n f
    → ((r : Run) → r.begun ≡ r.ended + n → Settled 0 (g r))
    → Settled 0 (then_do f g)
then_do-Settled n (goes_on r) g h k = k r h
then_do-Settled n (again r) g h k = h
then_do-Settled n (returns a r) g h k = h

module _ (set : Settings) (round : Round) where
  captcha_step-Settled :
      (c : Captcha) (run : Run) → run.begun ≡ run.ended → Settled 0 (captcha_step round c run)
  unfolding captcha_step captcha_failed
  captcha_step-Settled solved run h = ground (arith, h)
  captcha_step-Settled (unsolved repeated) run h = ground (arith, h)

  verify_step-Settled : (run : Run) → run.begun ≡ run.ended → Settled 0 (verify_step round run)
  unfolding verify_step
  verify_step-Settled run h =
      Settled-if 0 run.needs_captcha (captcha_step round round.captcha run) (goes_on run)
        (captcha_step-Settled round.captcha run h) (omega (arith, h))

  build_step-Settled : (run : Run) → run.begun ≡ run.ended → Settled 1 (build_step set round run)
  unfolding build_step
  build_step-Settled run h = ground (arith, h)

  -- The parts after the response was judged, and the request settled.
  module _ (run : Run) (h : run.begun ≡ run.ended) where
    risk_step-Settled : Settled 0 (risk_step round run)
    unfolding risk_step
    risk_step-Settled = ground (arith, h)

    denied_step-Settled : Settled 0 (denied_step set round run)
    unfolding denied_step
    denied_step-Settled = ground (arith, h)

    limited_step-Settled : (c : Classified) → Settled 0 (limited_step set round c run)
    unfolding limited_step retry
    limited_step-Settled c = ground (arith, h)

    server_step-Settled : Settled 0 (server_step set round run)
    unfolding server_step retry
    server_step-Settled = ground (arith, h)

    relay_step-Settled : (status : ℕ) (text : String) → Settled 0 (relay_step round status text run)
    unfolding relay_step
    relay_step-Settled status text = ground (arith, h)

    exhausted-Settled : Settled 0 (
        failed round.now "quota_exhausted" "upstream" "upstream" (
          mark_unless_stopped set round.now exhausted "exhausted"
            (noted round.now false "exhausted" run)))
    exhausted-Settled = ground (arith, h)

  served-Settled :
      (is_stream : Bool) (run : Run)
      → run.begun ≡ run.ended + 1
      → Settled 0 (served round is_stream run)
  unfolding served
  served-Settled is_stream run h = ground (arith, h)

  lost-Settled :
      (stage error : String) (run : Run)
      → run.begun ≡ run.ended + 1
      → Settled 0 (lost set round stage error run)
  unfolding lost
  lost-Settled stage error run h = ground (arith, h)

  module _ (loads : String → Option Json) where
    challenged-Settled :
        (run : Run) → run.begun ≡ run.ended → Settled 0 (challenged loads round run)
    unfolding challenged
    challenged-Settled run h = ground (arith, h)

    error_step-Settled :
        (r : Response) (c : Classified) (run : Run)
        → run.begun ≡ run.ended + 1
        → Settled 0 (error_step loads set round r c run)
    unfolding error_step
    error_step-Settled r c run h =
        let s = settle run in
        chain-Settled (run.needs_captcha && is_some (detect_captcha_challenge loads r))
          (is_risk_control loads c.status r.text) (is_exhausted loads c.status r.text)
          ((c.status == 401) || (c.status == 403)) (c.status == 429) (leb 500 c.status)
          (challenged loads round s) (risk_step round s)
          (failed round.now "quota_exhausted" "upstream" "upstream" (
            mark_unless_stopped set round.now exhausted "exhausted"
              (noted round.now false "exhausted" s)))
          (denied_step set round s) (limited_step set round c s) (server_step set round s)
          (relay_step round c.status r.text s) (challenged-Settled s h) (risk_step-Settled s h)
          (exhausted-Settled s h) (denied_step-Settled s h) (limited_step-Settled s h c)
          (server_step-Settled s h) (relay_step-Settled s h c.status r.text)

    sent_step-Settled :
        (wants_stream : Bool) (sent : Sent) (run : Run)
        → run.begun ≡ run.ended + 1
        → Settled 0 (sent_step loads set round wants_stream sent run)
    unfolding sent_step
    sent_step-Settled wants_stream no_exit run h = ground (arith, h)
    sent_step-Settled wants_stream no_connection run h =
        lost-Settled "connect" "connect failed" run h
    sent_step-Settled wants_stream (answered is_stream readable r) run h =
        Settled-if 0 (not (is_stream && ltb r.status_code 400) && not readable)
          (lost set round "read" "read failed" run)
          (if leb 400 (classified loads is_stream r).status
            then error_step loads set round r (classified loads is_stream r) run
            else served round (wants_stream && is_stream) run)
          (lost-Settled "read" "read failed" run h)
          (Settled-if 0 (leb 400 (classified loads is_stream r).status)
            (error_step loads set round r (classified loads is_stream r) run)
            (served round (wants_stream && is_stream) run)
            (error_step-Settled r (classified loads is_stream r) run h)
            (served-Settled (wants_stream && is_stream) run h))

    pass-Settled :
        (wants_stream : Bool) (run : Run)
        → run.begun ≡ run.ended
        → Settled 0 (pass loads set wants_stream round run)
    unfolding pass
    pass-Settled wants_stream run h =
        then_do-Settled 0 (verify_step round run) _ (verify_step-Settled run h) (λ r e.
          then_do-Settled 1 (build_step set round r) _ (build_step-Settled r (omega (arith, e)))
            (λ s k. sent_step-Settled wants_stream round.sent s k))

module _ (loads : String → Option Json) (set : Settings) where
  continue-Settled :
      (f : Flow) (g : Run → Option (Answer × Run)) (a : Answer) (r : Run)
      → Settled 0 f
      → ((s : Run) → s.begun ≡ s.ended → g s ≡ some (a, r) → r.begun ≡ r.ended + open_requests a)
      → continue loads f g ≡ some (a, r)
      → r.begun ≡ r.ended + open_requests a
  continue-Settled (goes_on s) g a r h k e = absurd (ground (arith, e))
  continue-Settled (again s) g a r h k e = k s h e
  continue-Settled (returns b s) g a r h k e =
      let same : (b ≡ a) × (s ≡ r) = ground (arith, e) in
      subst (λ (x : Run). x.begun ≡ x.ended + open_requests a) same.1
        (subst (λ (x : Answer). s.begun ≡ s.ended + open_requests x) same.0 h)

  -- Each request that an attempt let through its exit's breaker is settled with it exactly once before
  -- the attempt answers, in whatever way the attempt goes; only a streamed response leaves one open, to be
  -- settled when the stream ends.
  pub attempt-settled :
      (wants_stream : Bool) (rounds : ℕ → Round) (fuel i : ℕ) (run : Run) (a : Answer) (r : Run)
      → run.begun ≡ run.ended
      → attempt loads set wants_stream rounds fuel i run ≡ some (a, r)
      → r.begun ≡ r.ended + open_requests a
  unfolding attempt
  attempt-settled wants_stream rounds zero i run a r h e = absurd (ground (arith, e))
  attempt-settled wants_stream rounds (suc fuel) i run a r h e =
      continue-Settled (pass loads set wants_stream (rounds i) run)
        (attempt loads set wants_stream rounds fuel (suc i)) a r
        (pass-Settled set (rounds i) loads wants_stream run h)
        (λ s k. attempt-settled wants_stream rounds fuel (suc i) s a r k) e
