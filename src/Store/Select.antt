-- ===== src/Store/Select.antt =====
-- app/store.py: `Store.select`, the round-robin choice of the account for one attempt, and
-- `selection_snapshot`, which reads without choosing.
pub mod Choice
pub mod Rotation
use zcode2api.Prelude.{
  ℕ, ◌+◌, ◌%◌, String, Bool, true, false, not, ◌&&◌, Option, none, some, List, [], ◌∷◌, map, str_eq,
  if◌then◌else◌, length, keep_if, get_elem?, member, truthy, opt_text, is_empty,
}
use zcode2api.Prelude.Dict
use zcode2api.Prelude.Dict.{Dict}
use zcode2api.Account.{
  Account, Exclusion, Deadline, region_egress_offline, selection_exclusion, model_quota_exclusion,
  explicitly_supports_model,
}
use zcode2api.Store.{Store, accounts_of}

-- Why an account was passed over, and when.
pub record Observation : Type 0 where
  pub code : Exclusion
  pub at : ℕ

-- The arguments of `select` beside the provider. Without a set of healthy regions the region is not
-- looked at.
pub record Query : Type 0 where
  pub skip_ids : List String
  pub model : Option String
  pub avoid_id : Option String
  pub healthy_regions : Option (List String)

abbrev region_offline : Option (List String) → Option String → Bool
region_offline none region = false
region_offline (some healthy) region = truthy region && not (member (opt_text region) healthy)

-- One pass of the loop's body: an account is skipped in silence, blocked for a reason, or a candidate.
pub data Verdict : Type 0 where
  skipped candidate : Verdict
  blocked : Exclusion → Verdict

abbrev quota_verdict : Query → Account → Option Exclusion → Verdict
quota_verdict q a (some e) = blocked e
quota_verdict q a none =
    if region_offline q.healthy_regions a.assigned_region
    then blocked region_egress_offline
    else candidate

abbrev health_verdict : Query → Account → Option Exclusion → Verdict
health_verdict q a (some e) = blocked e
health_verdict q a none =
    if member a.id q.skip_ids then skipped else quota_verdict q a (model_quota_exclusion q.model a)

unfoldable pub verdict : ℕ → Query → Account → Verdict
verdict now q a = health_verdict q a (selection_exclusion now a)

abbrev pub is_candidate : Verdict → Bool
is_candidate candidate = true
is_candidate _ = false

abbrev pub note : ℕ → Account → Verdict → Dict Observation → Dict Observation
note now a (blocked e) obs = Dict.put a.id (record { code = e; at = now }) obs
note now a _ obs = obs

-- The loop: the candidates in order, and the observations of the blocked ones.
unfoldable pub observe : ℕ → Query → List Account → Dict Observation → Dict Observation
observe now q [] obs = obs
observe now q (a ∷ l) obs = observe now q l (note now a (verdict now q a) obs)

unfoldable pub candidates : ℕ → Query → List Account → List Account
candidates now q = keep_if (λ a. is_candidate (verdict now q a))

-- `preferred or pool`
abbrev pub or_list {ℓ} : {A : Type ℓ} → List A → List A → List A
or_list [] ys = ys
or_list (x ∷ xs) ys = x ∷ xs

-- Accounts that explicitly support the model, if there are any.
unfoldable pub by_model : Option String → List Account → List Account
by_model model pool =
    if truthy model then or_list (keep_if (explicitly_supports_model model) pool) pool else pool

-- Accounts other than the one to avoid, if there are any.
unfoldable pub avoiding : Option String → List Account → List Account
avoiding avoid_id pool =
    if truthy avoid_id
    then or_list (keep_if (λ a. not (str_eq a.id (opt_text avoid_id))) pool) pool
    else pool

unfoldable pub prefer : Query → List Account → List Account
unfolding by_model avoiding
prefer q pool = avoiding q.avoid_id (by_model q.model pool)

abbrev pub rotation_limit : ℕ
rotation_limit = 1_000_000

abbrev pub or_zero : Option ℕ → ℕ
or_zero none = 0
or_zero (some n) = n

abbrev pub cursor_of : Store → String → ℕ
cursor_of s provider = or_zero (Dict.get provider s.rotation)

abbrev pub advance : String → Store → Store
advance provider s = record s {
  rotation = Dict.put provider ((cursor_of s provider + 1) % rotation_limit) s.rotation;
}

-- The shortlist that the cursor turns over.
unfoldable pub shortlist : ℕ → String → Query → Store → List Account
unfolding candidates prefer
shortlist now provider q s = prefer q (candidates now q (accounts_of s provider))

abbrev pub choose : String → Store → List Account → Option Account × Store
choose provider s [] = (none, s)
choose provider s (a ∷ l) =
    (get_elem? (a ∷ l) (cursor_of s provider % length (a ∷ l)), advance provider s)

-- `select`: the account, if any, and the store with its cursor moved.
unfoldable pub select : ℕ → String → Query → Store → Option Account × Store
select now provider q s = choose provider s (shortlist now provider q s)

-- The `observations` that the caller passed, after the call.
unfoldable pub select_observations :
    ℕ → String → Query → Store → Dict Observation → Dict Observation
unfolding observe
select_observations now provider q s obs = observe now q (accounts_of s provider) obs

-- `selection_snapshot`
pub record Snapshot : Type 0 where
  pub code : Option Exclusion
  pub model_code : Option Exclusion
  pub cooling_until : Option Deadline
  pub at : ℕ

unfoldable pub snapshot_list : ℕ → Option String → List Account → Dict Snapshot → Dict Snapshot
snapshot_list now model [] d = d
snapshot_list now model (a ∷ l) d = snapshot_list now model l (
    Dict.put a.id
      (record {
        code = selection_exclusion now a;
        model_code = model_quota_exclusion model a;
        cooling_until = a.cooling_until;
        at = now;
      })
      d)

unfoldable pub selection_snapshot : ℕ → String → Option String → Store → Dict Snapshot
unfolding snapshot_list
selection_snapshot now provider model s = snapshot_list now model (accounts_of s provider) []
