-- ===== src/Gateway/Affinity/Tests.antt =====
-- Runs of the session affinity and the slots, and their theorems at concrete sessions.
use zcode2api.Prelude.{
  ℕ, ◌≤◌, ◌≡◌, refl, String, Bool, true, none, some, [], ◌∷◌, arith, length, strip, lower,
}
use zcode2api.Prelude.Dict
use zcode2api.Prelude.Dict.{Dict}
use zcode2api.Account.{
  Account, active, jwt, selection_exclusion, is_selectable, is_cooling, model_target, named_window,
  model_quota_exclusion, has_model_quota, explicitly_supports_model,
}
use zcode2api.Store.{Store, find, list_accounts}
use zcode2api.Gateway.Slots.{
  Regained, in_flight, others, park_slot, reacquire_slot, release_slot, reacquire_slot-park_slot,
}
use zcode2api.Gateway.Affinity.{
  Bound, get_sticky_account, bind_sticky_account, session_affinity_max_size,
}
use zcode2api.Gateway.Affinity.Sticky.{
  Sticks, get_sticky_account-Sticks, length-bind_sticky_account,
}

program : Unit {0}
unfolding in_flight park_slot reacquire_slot release_slot get_sticky_account bind_sticky_account
    find list_accounts selection_exclusion is_selectable is_cooling model_target named_window
    model_quota_exclusion has_model_quota explicitly_supports_model strip lower Dict.get Dict.put
    Dict.remove
program = tt

abbrev account : Account
account = record {
  id = "a-1";
  name = "a";
  provider = "zai";
  mode = jwt;
  jwt_token = some "h.p.s";
  key = none;
  enabled = true;
  status = active;
  quota = [];
  plans = [];
  plan_slots = [];
  claimable_plans = [];
  use_count = 0;
  fail_count = 0;
  risk_strikes = 0;
  recent_results = [];
  last_used_at = none;
  last_checked_at = none;
  cooling_until = none;
  claim_blocked_until = none;
  last_error = none;
  created_at = 100;
  install_id = none;
  installed_at = none;
  proxy = none;
  assigned_region = none;
}

abbrev pool : Store
pool = record { accounts = ("zai", account ∷ []) ∷ []; rotation = []; rows = [] }

abbrev table : Dict Bound
table = ("zai:key", record { account_id = "a-1"; created_at = 100; req_count = 19 }) ∷ []

healthy : String → Bool
healthy region = true

-- The twentieth request is the last of the window.
twentieth :
    bind_sticky_account 300 "zai:key" "a-1" table
    ≡ ("zai:key", record { account_id = "a-1"; created_at = 100; req_count = 20 }) ∷ []
unfolding program
twentieth = refl

get_sticky_account-Sticks_example :
    Sticks 300 "zai" [] 2 none pool [] healthy "zai:key" table account
unfolding program healthy
get_sticky_account-Sticks_example =
    get_sticky_account-Sticks 300 "zai" [] 2 none pool [] healthy "zai:key" table account refl

length-bind_sticky_account_example :
    length (bind_sticky_account 300 "zai:other" "a-1" table) ≤ session_affinity_max_size
length-bind_sticky_account_example =
    length-bind_sticky_account "zai:other" "a-1" 300 table (omega arith)

abbrev busy : Dict ℕ
busy = ("a-1", 2) ∷ []

reacquire_slot-park_slot_example :
    ((j : String) → others j (park_slot (busy, some "a-1")) ≡ others j (busy, some "a-1"))
    × Regained 2 "a-1" busy (reacquire_slot 2 "a-1" (busy, (park_slot (busy, some "a-1")).1))
reacquire_slot-park_slot_example = reacquire_slot-park_slot 2 "a-1" busy busy
