-- ===== src/Gateway/Attempt/Branches.antt =====
-- app/routes/gateway.py: the branches of the loop in `_try_account_admitted`, each as a function of what
-- its pass meets and of the loop's variables.
use zcode2api.Prelude.{
  ℕ, ◌+◌, String, Bool, true, false, not, ◌&&◌, ◌||◌, none, some, List, [], ◌∷◌, ltb, ◌==◌,
  if◌then◌else◌, any, nonempty, lower, contains,
}
use zcode2api.Account.{
  Account, active, exhausted, cooling, invalid, status_eq, record_result, ban_for_risk,
  has_apikey_fallback,
}
use zcode2api.Gateway.Classify.{Classified, one_of, rate_limit_business_codes}
use zcode2api.Gateway.Attempt.{
  Settings, Captcha, Round, Run, Flow, failed, noted, save, is_stopped, mark, mark_unless_stopped,
  to_key, remember, settle, no_slot, regain, is_full, park, solved, unsolved, relayed, upstream,
  goes_on, again, returns,
}

unfoldable pub captcha_failed : Round → Bool → Run → Flow
captcha_failed round repeated run =
    let r = record run { attempted = not repeated } in
    let key = to_key (noted round.now false "captcha failed, key" r) in
    if has_apikey_fallback r.account
    then (if is_full round.after_captcha
        then no_slot round "captcha_reacquire" key
        else again (regain round.after_captcha key))
    else failed round.now "captcha_error" "local_scheduler" "captcha"
        (noted round.now false "captcha failed" r)

-- The captcha is solved without the slot, which is taken again after it.
unfoldable pub captcha_step : Round → Captcha → Run → Flow
unfolding captcha_failed
captcha_step round solved run =
    if is_full round.after_captcha
    then no_slot round "captcha_reacquire" (park run)
    else goes_on (regain round.after_captcha (park run))
captcha_step round (unsolved repeated) run = captcha_failed round repeated (park run)

unfoldable pub verify_step : Round → Run → Flow
unfolding captcha_step
verify_step round run =
    if run.needs_captcha then captcha_step round round.captcha run else goes_on run

-- The request is built from the credential and let through by the exit's breaker.
unfoldable pub build_step : Settings → Round → Run → Flow
build_step set round run = elim round.build_error [
  | some error ↦
      failed round.now "credential_invalid" "local_scheduler" "credential"
        (mark set round.now invalid error (noted round.now false "credential invalid" run))
  | none ↦
      if round.admitted
      then goes_on (record run { attempted = true; begun = run.begun + 1 })
      else failed round.now "region_offline" "network_routing" "region" run
]

unfoldable pub lost : Settings → Round → String → String → Run → Flow
lost set round stage error run =
    failed round.now "upstream_transport_error" "transport" stage
      (mark_unless_stopped set round.now cooling error (noted round.now false error (settle run)))

unfoldable pub risk_step : Round → Run → Flow
risk_step round run =
    let banned =
      record (ban_for_risk (record_result round.now false "risk control" 20 run.account)) {
        last_error = some "risk control";
      } in
    let r = save (record run { account = banned }) in
    if r.needs_captcha && has_apikey_fallback r.account
    then again (to_key r)
    else failed round.now "account_risk_blocked" "upstream" "upstream" r

unfoldable pub denied_step : Settings → Round → Run → Flow
denied_step set round run =
    let r = mark set round.now invalid "denied" (noted round.now false "denied" run) in
    if r.needs_captcha && has_apikey_fallback r.account
    then again (to_key r)
    else failed round.now "credential_invalid" "upstream" "upstream" r

unfoldable pub limit_code : Classified → String
limit_code c =
    if c.is_concurrency_limit
    then "upstream_concurrency_limit"
    else if one_of c.code rate_limit_business_codes
    then "upstream_rate_limited"
    else "upstream_429_unknown"

-- Same account again after a wait, if its slot is free then.
unfoldable pub retry : Round → Run → Flow
retry round run =
    if is_full round.after_wait
    then no_slot round "retry_reacquire" (park run)
    else again (regain round.after_wait (park run))

unfoldable pub limited_step : Settings → Round → Classified → Run → Flow
unfolding limit_code retry
limited_step set round c run =
    if not c.is_concurrency_limit && ltb run.retries_429 set.retry_429_times
    then retry round (remember (limit_code c) (record run { retries_429 = run.retries_429 + 1 }))
    else if run.needs_captcha && has_apikey_fallback run.account
    then again (record (to_key (noted round.now false "429, key" run)) { retries_429 = 0 })
    else failed round.now (limit_code c) "upstream" "upstream"
        (save (noted round.now false "429" run))

unfoldable pub server_step : Settings → Round → Run → Flow
unfolding retry
server_step set round run =
    if ltb run.retries_5xx set.retry_5xx_times
    then retry round
        (remember "upstream_server_error" (record run { retries_5xx = run.retries_5xx + 1 }))
    else failed round.now "upstream_server_error" "upstream" "upstream" (
        mark_unless_stopped set round.now cooling "server error"
          (noted round.now false "server error" run))

abbrev thinking_markers : List String
thinking_markers =
    "signature" ∷ "invalid" ∷ "unsupported" ∷ "not supported" ∷ "malformed" ∷ "corrupted"
    ∷ "cannot be modified" ∷ "must match" ∷ []

-- `_is_thinking_signature_rejection`
unfoldable pub is_thinking_rejection : ℕ → String → Bool
is_thinking_rejection status text =
    (status == 400)
    && nonempty text
    && (contains "thinking" (lower text) || contains "redacted_thinking" (lower text))
    && any (λ m. contains m (lower text)) thinking_markers

unfoldable pub relay_step : Round → ℕ → String → Run → Flow
relay_step round status text run =
    if not run.retried_strip && is_thinking_rejection status text && round.has_thinking
    then again (record run { retried_strip = true })
    else returns (relayed status) (
        save (
          noted round.now false "relayed" (record run {
            account = record run.account { fail_count = run.account.fail_count + 1 };
          })))

-- The response is good: the account's health is restored, unless it is stopped.
unfoldable pub healthy : Account → Account
healthy a = if is_stopped a then a else record a {
  risk_strikes = 0;
  last_error = none;
  cooling_until = none;
  status = if status_eq a.status cooling || status_eq a.status exhausted then active else a.status;
}

abbrev used : ℕ → Account → Account
used now a = record a { use_count = a.use_count + 1; last_used_at = some now }

unfoldable pub served : Round → Bool → Run → Flow
unfolding healthy
served round is_stream run =
    let r = record run { account = used round.now run.account } in
    let told = if is_stream then r else settle (noted round.now true "HTTP 200" r) in
    returns (upstream is_stream) (save (record told { account = healthy told.account }))
