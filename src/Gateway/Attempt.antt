-- ===== src/Gateway/Attempt.antt =====
-- app/routes/gateway.py: `_try_account_admitted`, the attempt to serve a request with one account. What
-- comes from outside in one pass of its loop is a `Round`: the captcha's outcome, the slots that are free
-- after a wait, whether a request could be built and sent, the response. Texts for people are kept without
-- the values that are put into them, and waits take no time.
pub mod Branches
pub mod Loop
pub mod Ends
pub mod Health
pub mod Settled
use zcode2api.Prelude.{
  ℕ, zero, suc, ◌+◌, String, Bool, true, false, not, ◌&&◌, ◌||◌, Option, none, some, List, [], ◌∷◌,
  ◌++◌, str_eq, leb, ltb, ◌==◌, if◌then◌else◌, any, length, nonempty, lower, contains, is_some,
}
use zcode2api.Prelude.Json.{Json}
use zcode2api.Account.{
  Account, Status, active, exhausted, cooling, invalid, disabled, status_eq, Deadline, at,
  record_result, ban_for_risk, has_apikey_fallback, Exclusion, selection_exclusion,
}
use zcode2api.Gateway.Classify.{
  Response, Classified, Challenge, one_of, rate_limit_business_codes, detect_captcha_challenge,
  is_exhausted, is_risk_control, classify_business_error,
}

abbrev pub max_captcha_retries : ℕ
max_captcha_retries = 3

pub record Settings : Type 0 where
  pub retry_429_times : ℕ
  pub retry_5xx_times : ℕ
  pub cooling_seconds : ℕ

-- `get_verify_param`: a parameter, or an error, which may be the one that the exit already had.
pub data Captcha : Type 0 where
  solved : Captcha
  unsolved : Bool → Captcha

-- The exit is lost, the connection fails, or a response comes whose body is a stream or not, and whose
-- reading may fail.
pub data Sent : Type 0 where
  no_exit no_connection : Sent
  answered : (is_stream readable : Bool) → Response → Sent

-- `_reacquire_slot`: there is no limit, the slot is taken, or the account is full.
pub data Slot : Type 0 where
  unlimited taken full : Slot

pub record Round : Type 0 where
  pub now : ℕ
  pub captcha : Captcha
  pub after_captcha : Slot
  pub after_wait : Slot
  pub build_error : Option String
  pub admitted : Bool
  pub sent : Sent
  pub has_thinking : Bool

-- The variables of the loop, the account and whether its slot is held. `saved` is the state that was
-- last given to `store.update_account`; `begun` and `ended` count the calls of `begin_request` that
-- succeeded and of `end_request`.
pub record Run : Type 0 where
  pub account : Account
  pub saved : Option Account
  pub holds_slot : Bool
  pub captcha_retries : ℕ
  pub retries_429 : ℕ
  pub retries_5xx : ℕ
  pub needs_captcha : Bool
  pub force_fallback : Bool
  pub retried_strip : Bool
  pub attempted : Bool
  pub history : List String
  pub history_truncated : ℕ
  pub begun : ℕ
  pub ended : ℕ

-- `_AccountFailure`, without its deadlines.
pub record Failure : Type 0 where
  pub code : String
  pub origin : String
  pub stage : String
  pub state_code : Option Exclusion
  pub attempted : Bool

-- The attempt ends: another account is next, the error is relayed, or the response is handed over.
pub data Answer : Type 0 where
  next_account : Failure → Answer
  relayed : ℕ → Answer
  upstream : Bool → Answer

-- A part of the loop's body goes on, starts the loop again, or returns.
pub data Flow : Type 0 where
  goes_on again : Run → Flow
  returns : Answer → Run → Flow

abbrev then_do : Flow → (Run → Flow) → Flow
then_do (goes_on run) f = f run
then_do (again run) f = again run
then_do (returns a run) f = returns a run

abbrev pub failed : ℕ → String → String → String → Run → Flow
failed now code origin stage run =
    returns
      (next_account (record {
        code = code;
        origin = origin;
        stage = stage;
        state_code = selection_exclusion now run.account;
        attempted = run.attempted;
      }))
      run

abbrev noted : ℕ → Bool → String → Run → Run
noted now ok detail run = record run { account = record_result now ok detail 20 run.account }

abbrev save : Run → Run
save run = record run { saved = some run.account }

abbrev pub is_stopped : Account → Bool
is_stopped a = status_eq a.status invalid || status_eq a.status disabled

-- `_mark`
abbrev pub mark : Settings → ℕ → Status → String → Run → Run
mark set now status error run = save (record run {
  account = record run.account {
    status = status;
    last_error = some error;
    cooling_until =
        if status_eq status cooling
        then some (at (now + set.cooling_seconds))
        else run.account.cooling_until;
  };
})

-- A stopped account keeps its status.
abbrev mark_unless_stopped : Settings → ℕ → Status → String → Run → Run
mark_unless_stopped set now status error run =
    if is_stopped run.account then save run else mark set now status error run

abbrev pub to_key : Run → Run
to_key run = record run { needs_captcha = false; force_fallback = true }

-- `remember`, which keeps thirty-two.
abbrev remember : String → Run → Run
remember code run =
    if ltb (length run.history) 32
    then record run { history = run.history ++ code ∷ [] }
    else record run { history_truncated = run.history_truncated + 1 }

abbrev settle : Run → Run
settle run = record run { ended = run.ended + 1 }

-- The account without a free slot: another one is next.
abbrev no_slot : Round → String → Run → Flow
no_slot round stage run = failed round.now "local_concurrency_limit" "local_scheduler" stage run

abbrev regain : Slot → Run → Run
regain taken run = record run { holds_slot = true }
regain _ run = run

abbrev is_full : Slot → Bool
is_full full = true
is_full _ = false

-- `_park_slot`
abbrev park : Run → Run
park run = record run { holds_slot = false }
