-- ===== src/Gateway/Affinity.antt =====
-- app/routes/gateway.py: `_get_sticky_account` and `_bind_sticky_account`, which keep a session on the
-- account that served it, for a time and a number of requests.
pub mod Sticky
mod Tests
use zcode2api.Prelude.{
  ℕ, ◌+◌, ◌-◌, String, Bool, true, false, not, ◌&&◌, ◌||◌, Option, none, some, List, [], ◌∷◌,
  str_eq, leb, ltb, if◌then◌else◌, any, keep_if, length, member, truthy, nonempty,
}
use zcode2api.Prelude.Dict
use zcode2api.Prelude.Dict.{Dict}
use zcode2api.Account.{Account, is_selectable, has_model_quota, explicitly_supports_model}
use zcode2api.Store.{Store, find, list_accounts}
use zcode2api.Gateway.Slots.{in_flight}

abbrev pub session_affinity_ttl : ℕ
session_affinity_ttl = 600

abbrev pub session_affinity_max_requests : ℕ
session_affinity_max_requests = 20

abbrev pub session_affinity_max_size : ℕ
session_affinity_max_size = 2048

-- An entry of `_session_affinity`.
pub record Bound : Type 0 where
  pub account_id : String
  pub created_at : ℕ
  pub req_count : ℕ

-- The window of an entry is over.
abbrev pub is_over : ℕ → Bound → Bool
is_over now b =
    ltb session_affinity_ttl (now - b.created_at) || leb session_affinity_max_requests b.req_count

-- Another account of the pool names the model.
abbrev better : ℕ → Option String → Account → List Account → Bool
better now model acc pool =
    any
      (λ other.
        not (str_eq other.id acc.id)
        && is_selectable now other
        && explicitly_supports_model model other)
      pool

module _ (now : ℕ) (provider : String) (skip_ids : List String) (limit : ℕ) (model : Option String)
    (s : Store) (inflight : Dict ℕ) (is_region_healthy : String → Bool) where
  region_down : Option String → Bool
  region_down none = false
  region_down (some region) = nonempty region && not (is_region_healthy region)

  sticky : String → Dict Bound → Option Account → Dict Bound × Option Account
  unfolding region_down
  sticky key table none = (Dict.remove key table, none)
  sticky key table (some acc) =
      if not (is_selectable now acc) || not (has_model_quota model acc)
      then (Dict.remove key table, none)
      else if truthy model
          && not (explicitly_supports_model model acc)
          && better now model acc (list_accounts s (some provider))
      then (table, none)
      else if region_down acc.assigned_region
          || (ltb 0 limit && leb limit (in_flight inflight acc.id))
      then (table, none)
      else (table, some acc)

  bound_to : String → Dict Bound → Option Bound → Dict Bound × Option Account
  unfolding sticky
  bound_to key table none = (table, none)
  bound_to key table (some b) =
      if is_over now b
      then (Dict.remove key table, none)
      else if member b.account_id skip_ids
      then (table, none)
      else sticky key table (find s provider b.account_id)

  -- `_get_sticky_account`
  unfoldable pub get_sticky_account : Option String → Dict Bound → Dict Bound × Option Account
  unfolding bound_to
  get_sticky_account none table = (table, none)
  get_sticky_account (some key) table =
      if nonempty key then bound_to key table (Dict.get key table) else (table, none)

-- The key of the oldest entry, of two equally old the first.
oldest : String → ℕ → Dict Bound → String
oldest key at [] = key
oldest key at ((k, b) ∷ table) =
    let earlier = oldest k b.created_at table in
    let same = oldest key at table in if ltb b.created_at at then earlier else same

drop_oldest : Dict Bound → Dict Bound
unfolding oldest
drop_oldest [] = []
drop_oldest ((k, b) ∷ table) = Dict.remove (oldest k b.created_at table) ((k, b) ∷ table)

rebound : ℕ → String → Option Bound → Bound
rebound now account_id none = record { account_id = account_id; created_at = now; req_count = 1 }
rebound now account_id (some b) =
    if str_eq b.account_id account_id && leb (now - b.created_at) session_affinity_ttl
    then record b { req_count = b.req_count + 1 }
    else record { account_id = account_id; created_at = now; req_count = 1 }

trim : ℕ → Dict Bound → Dict Bound
unfolding drop_oldest
trim now table =
    if leb (length table) session_affinity_max_size
    then table
    else (let kept = keep_if (λ e. not (ltb session_affinity_ttl (now - e.1.created_at))) table in
        if leb (length kept) session_affinity_max_size then kept else drop_oldest kept)

-- `_bind_sticky_account`
unfoldable pub bind_sticky_account : ℕ → String → String → Dict Bound → Dict Bound
unfolding rebound trim
bind_sticky_account now key account_id table =
    if nonempty key && nonempty account_id
    then trim now (Dict.put key (rebound now account_id (Dict.get key table)) table)
    else table
