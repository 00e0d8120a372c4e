-- ===== src/Account.antt =====
-- app/models.py: one pooled account, its status, and the tests that decide whether it may serve. Data has
-- the record. Times are whole seconds of the clock; the caller passes the reading that
-- `now or time.time()` takes.
pub mod Health
mod Data
mod Tests
pub use Data.*
use zcode2api.Prelude.{
  ℕ, ◌+◌, ◌-◌, ◌<◌, String, Bool, true, false, not, ◌&&◌, ◌||◌, Option, none, some, List, [], ◌∷◌,
  ◌++◌, str_eq, ltb, leb, ◌==◌, if◌then◌else◌, is_none, is_some, length, drop, ℤ, is_positive,
  truthy, nonempty, opt_text, text_or, lower, strip, occurrences,
}
use zcode2api.Prelude.Dict.{Dict}
use zcode2api.Prelude.Json.{Json}

-- `Account.create`. The identifier (`_account_id` draws random digits) and the clock are arguments.
unfoldable pub create : String → ℕ → String → String → String → Account
create fresh_id now provider name secret =
    let s = strip secret in
    let is_token = (occurrences b'.' s == 2) && str_eq provider "zai" in
    record {
      id = fresh_id;
      name = text_or name (Prim.Native.String.◌++◌ provider "-account");
      provider = provider;
      mode = if is_token then jwt else api_key;
      jwt_token = if is_token then some s else none;
      key = if is_token then none else some s;
      enabled = true;
      status = active;
      quota = [];
      plans = [];
      plan_slots = [];
      claimable_plans = [];
      use_count = 0;
      fail_count = 0;
      risk_strikes = 0;
      recent_results = [];
      last_used_at = none;
      last_checked_at = none;
      cooling_until = none;
      claim_blocked_until = none;
      last_error = none;
      created_at = now;
      install_id = none;
      installed_at = none;
      proxy = none;
      assigned_region = none;
    }

-- `Account.secret`
unfoldable pub secret : Account → Option String
secret a = if is_jwt a.mode then a.jwt_token else a.key

-- `Account.ban_for_risk`
unfoldable pub ban_for_risk : Account → Account
ban_for_risk a = record a {
  risk_strikes = a.risk_strikes + 1;
  status = disabled;
  cooling_until = none;
}

-- `Account.has_apikey_fallback`: switched off.
unfoldable pub has_apikey_fallback : Account → Bool
has_apikey_fallback a = false

has_token : Account → Bool
has_token a = is_jwt a.mode && nonempty (strip (opt_text a.jwt_token))

-- `Account.uses_plan_channel`
unfoldable pub uses_plan_channel : Account → Bool
unfolding has_token
uses_plan_channel a =
    if not (has_token a)
    then false
    else if not a.enabled
    then false
    else not (status_eq a.status invalid || status_eq a.status disabled)

-- `Account.is_cooling`
unfoldable pub is_cooling : ℕ → Account → Bool
is_cooling now a =
    if not (status_eq a.status cooling)
    then false
    else is_set a.cooling_until && elim a.cooling_until [ none ↦ false | some d ↦ before now d ]

-- `Account.allows_billing`
unfoldable pub allows_billing : ℕ → Account → Bool
allows_billing now a = uses_plan_channel a && not (is_cooling now a)

-- `Account.is_claim_blocked`
unfoldable pub is_claim_blocked : ℕ → Account → Bool
is_claim_blocked now a = elim a.claim_blocked_until [
  | none ↦ false
  | some t ↦ if t == 0 then false else ltb now t
]

-- `Account.record_result`: the newest tick last, the `keep` latest kept. `xs[-0:]` is the whole list.
unfoldable pub record_result : ℕ → Bool → String → ℕ → Account → Account
record_result now ok detail keep a =
    let entry : Tick = record {
      ok = ok;
      at = now;
      detail = text_or detail (if ok then "成功" else "失败");
    } in
    let all_ticks = a.recent_results ++ entry ∷ [] in
    record a {
      recent_results = if keep == 0 then all_ticks else drop (length all_ticks - keep) all_ticks;
    }

-- Why an account is left out of a selection.
pub data Exclusion : Type 0 where
  account_disabled quota_exhausted credential_invalid account_cooling unknown_unavailability
        model_quota_exhausted region_egress_offline :
      Exclusion

cooling_exclusion : ℕ → Option Deadline → Option Exclusion
cooling_exclusion now none = some unknown_unavailability
cooling_exclusion now (some d) =
    if not (is_set (some d))
    then some unknown_unavailability
    else if not (reached now d)
    then some (if before now d then account_cooling else unknown_unavailability)
    else none

-- `Account.selection_exclusion`
unfoldable pub selection_exclusion : ℕ → Account → Option Exclusion
unfolding has_apikey_fallback cooling_exclusion
selection_exclusion now a =
    if not a.enabled
    then some account_disabled
    else if status_eq a.status exhausted
    then some quota_exhausted
    else if (status_eq a.status invalid || status_eq a.status disabled)
        && not (has_apikey_fallback a)
    then some (if status_eq a.status invalid then credential_invalid else account_disabled)
    else if status_eq a.status cooling
    then cooling_exclusion now a.cooling_until
    else none

-- `Account.is_selectable`
unfoldable pub is_selectable : ℕ → Account → Bool
is_selectable now a = is_none (selection_exclusion now a)

-- The model name as the quota is searched by it; `none` where the caller names no model.
unfoldable pub model_target : Option String → Option String
model_target none = none
model_target (some m) =
    if nonempty m then (let t = lower (strip m) in if nonempty t then some t else none) else none

-- The first window of the snapshot whose name is the target, up to case and white space.
unfoldable pub named_window : String → Dict Window → Option (Option ℤ)
named_window target [] = none
named_window target ((k, malformed) ∷ d) = named_window target d
named_window target ((k, window total used remaining expires) ∷ d) =
    if str_eq (lower (strip k)) target then some remaining else named_window target d

-- `rem is None or rem > 0`
abbrev pub has_left : Option ℤ → Bool
has_left none = true
has_left (some r) = is_positive r

-- `Account.model_quota_exclusion`
unfoldable pub model_quota_exclusion : Option String → Account → Option Exclusion
model_quota_exclusion model a = elim (model_target model) [
  | none ↦ none
  | some target ↦ elim (named_window target a.quota) [
    | none ↦ none
    | some left ↦ if has_left left then none else some model_quota_exhausted
  ]
]

-- `Account.has_model_quota`
unfoldable pub has_model_quota : Option String → Account → Bool
has_model_quota model a = is_none (model_quota_exclusion model a)

-- `Account.explicitly_supports_model`
unfoldable pub explicitly_supports_model : Option String → Account → Bool
explicitly_supports_model model a = elim (model_target model) [
  | none ↦ true
  | some target ↦ elim a.quota [
    | [] ↦ true
    | _ ∷ _ ↦ elim (named_window target a.quota) [ none ↦ false | some left ↦ has_left left ]
  ]
]

-- `Account.effective_status`
unfoldable pub effective_status : ℕ → Account → Status
effective_status now a =
    if status_eq a.status cooling
    then (if is_set a.cooling_until
          && elim a.cooling_until [ none ↦ false | some d ↦ reached now d ]
        then active
        else a.status)
    else a.status
