-- ===== src/Store/Tests.antt =====
-- Runs of the store's methods, and the theorems at concrete stores.
use zcode2api.Prelude.{
  ℕ, strip, lower, occurrences, ◌≡◌, refl, String, true, some, none, Option, [], ◌∷◌, arith, length,
  str_eq, if◌then◌else◌, Among, ◌<◌,
}
use zcode2api.Prelude.Dict
use zcode2api.Prelude.Json
use zcode2api.Prelude.Json.{Json, obj, field, end, str, arr, nil, or_json, is_truthy}
use zcode2api.Account.{
  Account, active, jwt, api_key, create, secret, selection_exclusion, is_selectable, is_cooling,
  explicitly_supports_model, has_model_quota, model_quota_exclusion, model_target, named_window,
}
use zcode2api.Region.{pick_region}
use zcode2api.Store.{
  Store, ok, attribute_error, accounts_of, set_accounts, identity, find_same, assign_region,
  persist_account, delete_account, find, token_identity, user_of, upsert, list_accounts,
  region_distribution, count_regions,
}
use zcode2api.Store.Ops.{
  Draw, add_account, admitted, remove_account, update_account, set_enabled, switched,
}
use zcode2api.Store.Select.{Query, select, shortlist, verdict}
use zcode2api.Store.Select.Choice.{Eligible, select-Eligible}
use zcode2api.Store.Select.Rotation.{after_selects, select_fair}
use zcode2api.Store.Rows.{row_of, restored, by_age, load_row, load_rows, load, insert_row}
use zcode2api.Store.Rows.Restart.{ReadBack, load-persist_account}
use zcode2api.Store.Dedup.{Distinct, Added, add_account-Added, add_account-Distinct}

abbrev one : Account
one = record {
  id = "a-1";
  name = "a";
  provider = "zai";
  mode = jwt;
  jwt_token = some "h.p.s";
  key = none;
  enabled = true;
  status = active;
  quota = [];
  plans = [];
  plan_slots = [];
  claimable_plans = [];
  use_count = 0;
  fail_count = 0;
  risk_strikes = 0;
  recent_results = [];
  last_used_at = none;
  last_checked_at = none;
  cooling_until = none;
  claim_blocked_until = none;
  last_error = none;
  created_at = 100;
  install_id = none;
  installed_at = none;
  proxy = none;
  assigned_region = some "jp";
}

abbrev two : Account
two = record one {
  id = "a-2";
  name = "b";
  jwt_token = some "h.q.s";
  created_at = 50;
  assigned_region = none;
}

abbrev pair : Store
pair = record {
  accounts = ("zai", one ∷ two ∷ []) ∷ ("bigmodel", []) ∷ [];
  rotation = ("zai", 0) ∷ [];
  rows = [];
}

abbrev single : Store
single = record pair { accounts = ("zai", one ∷ []) ∷ ("bigmodel", []) ∷ [] }

-- A payload with the user `u-1`, and one that is no object.
payload_of : String → Option Json
payload_of token =
    if str_eq token "h.p.s"
    then some (obj (field "sub" (str "u-1") end))
    else if str_eq token "x.y.z"
    then some (arr nil)
    else none

abbrev plain : Query
plain = record { skip_ids = []; model = none; avoid_id = none; healthy_regions = none }

abbrev glm : Query
glm = record plain { model = some "glm"; avoid_id = some "a-2" }

jwt_identity : identity payload_of one ≡ ok (some "u-1")
unfolding identity payload_of token_identity user_of secret strip is_truthy Json.get occurrences
jwt_identity = refl

-- The token of a payload that is no object is accepted into an empty pool and breaks each later call.
identity_error : identity payload_of (record one { jwt_token = some "x.y.z" }) ≡ attribute_error
unfolding identity payload_of token_identity user_of secret strip is_truthy Json.get occurrences
identity_error = refl

program : Unit {0}
unfolding identity payload_of token_identity user_of secret strip is_truthy Json.get Dict.get
    Dict.put Dict.remove select shortlist verdict selection_exclusion model_quota_exclusion
    model_target lower is_selectable has_model_quota named_window explicitly_supports_model
    is_cooling find find_same assign_region persist_account delete_account upsert list_accounts
    region_distribution count_regions pick_region add_account admitted remove_account update_account
    set_enabled switched after_selects row_of restored by_age insert_row load_row load_rows load
    create occurrences
program = tt

select-Eligible_example : Eligible 200 plain one × Among one (accounts_of pair "zai")
unfolding program
select-Eligible_example = select-Eligible 200 "zai" plain pair one refl

select_fair_example :
    (k : ℕ) × (k < length (shortlist 200 "zai" plain pair))
    × ((select 200 "zai" plain (after_selects k 200 "zai" plain pair)).0 ≡ some two)
unfolding program
select_fair_example = select_fair 200 "zai" plain pair 1 (omega arith) (omega arith)

add_account-Added_example : Added payload_of none "zai" single single one
unfolding program
add_account-Added_example =
    add_account-Added payload_of none (record { id = "n"; install = "i"; now = 7 }) "zai" "n"
      "h.p.s" single one single refl

abbrev drawn : Draw
drawn = record { id = "n"; install = "i"; now = 7 }

abbrev newcomer : Account
newcomer = record one {
  id = "n";
  name = "n";
  mode = api_key;
  jwt_token = none;
  key = some "k";
  created_at = 7;
  assigned_region = none;
  install_id = some "i";
}

add_account-Distinct_example : Distinct payload_of (one ∷ newcomer ∷ [])
unfolding program
add_account-Distinct_example =
    add_account-Distinct payload_of none drawn "zai" "n" "k" single newcomer
      (persist_account newcomer (set_accounts single "zai" (one ∷ newcomer ∷ []))) ((tt), tt) refl

load-persist_account_example :
    (b : Account) × ReadBack one (row_of "a-1" pair.rows) b
    × Among b (accounts_of (load (persist_account one pair).rows) "zai")
load-persist_account_example = load-persist_account one pair refl
