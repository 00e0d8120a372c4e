-- ===== src/Account/Tests.antt =====
-- Runs of the account's methods, and the theorems at concrete accounts.
use zcode2api.Prelude.{strip, lower, occurrences, ◌≡◌, refl, ◌↔◌, true, some, none, [], ◌∷◌, pos}
use zcode2api.Prelude.Json.{null}
use zcode2api.Account.{
  Account, active, cooling, jwt, at, nan, window, create, selection_exclusion, account_cooling,
  is_selectable, effective_status, uses_plan_channel, allows_billing, is_cooling,
  explicitly_supports_model, named_window, model_target,
}
use zcode2api.Account.Health.{is_selectable-effective_status}

abbrev fresh : Account
fresh = record {
  id = "a-1";
  name = "a";
  provider = "zai";
  mode = jwt;
  jwt_token = some "h.p.s";
  key = none;
  enabled = true;
  status = active;
  quota = [];
  plans = [];
  plan_slots = [];
  claimable_plans = [];
  use_count = 0;
  fail_count = 0;
  risk_strikes = 0;
  recent_results = [];
  last_used_at = none;
  last_checked_at = none;
  cooling_until = none;
  claim_blocked_until = none;
  last_error = none;
  created_at = 100;
  install_id = none;
  installed_at = none;
  proxy = none;
  assigned_region = none;
}

created : create "a-1" 100 "zai" "a" " h.p.s " ≡ fresh
unfolding create strip occurrences
created = refl

abbrev chilled : Account
chilled = record fresh { status = cooling; cooling_until = some (at 500) }

abbrev broken : Account
broken = record fresh { status = cooling; cooling_until = some nan }

cooling_then_back : (selection_exclusion 499 chilled ≡ some account_cooling)
unfolding selection_exclusion
cooling_then_back = refl

abbrev stocked : Account
stocked = record fresh { quota = ("GLM-5.3", window (pos 10) (pos 2) (some (pos 8)) null) ∷ [] }

is_selectable-effective_status_example :
    (is_selectable 500 chilled ≡ true)
    ↔ ((chilled.enabled ≡ true) × (effective_status 500 chilled ≡ active))
is_selectable-effective_status_example = is_selectable-effective_status 500 chilled

broken_may_bill : allows_billing 500 broken ≡ true
unfolding allows_billing uses_plan_channel is_cooling strip
broken_may_bill = refl

stocked_supports : explicitly_supports_model (some " glm-5.3") stocked ≡ true
unfolding explicitly_supports_model named_window model_target strip lower
stocked_supports = refl
