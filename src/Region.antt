-- ===== src/Region.antt =====
-- app/region_assign.py and the tiers of app/constants.py: which region the next account is bound to.
-- The source computes shares as floats; here they are exact fractions over one denominator, so two
-- shares that floats would round apart or together are compared by their true values.
pub mod Assign
mod Tests
use zcode2api.Prelude.{
  ℕ, ◌+◌, ◌*◌, String, Bool, true, false, ◌&&◌, Option, none, some, List, [], ◌∷◌, ◌++◌, map, leb,
  ltb, if◌then◌else◌, member, keep_if, is_empty, not, length, str_eq,
}
use zcode2api.Prelude.Dict
use zcode2api.Prelude.Dict.{Dict}

abbrev pub region_assign_p0 : List String
region_assign_p0 = "HK" ∷ "JP" ∷ "TW" ∷ []

abbrev pub region_assign_p1 : List String
region_assign_p1 = "SG" ∷ "US" ∷ []

abbrev pub region_assign_p0_weights : Dict ℕ
region_assign_p0_weights = ("HK", 5) ∷ ("JP", 4) ∷ ("TW", 2) ∷ []

-- The registry's `regions`: the proxy addresses that are live in each region.
abbrev pub Registry : Type 0
Registry = Dict (List String)

abbrev has_egress : Option (List String) → Bool
has_egress none = false
has_egress (some urls) = not (is_empty urls)

-- `_has`
abbrev pub is_live : Registry → String → Bool
is_live active r = has_egress (Dict.get r active)

-- `assignable_regions`; an absent registry is an empty one.
unfoldable pub assignable_regions : Option Registry → List String
assignable_regions none = []
assignable_regions (some active) = keep_if (is_live active) (region_assign_p0 ++ region_assign_p1)

abbrev pub count_of : Dict ℕ → String → ℕ
count_of existing r = elim (Dict.get r existing) [ none ↦ 0 | some n ↦ n ]

abbrev pub sum : List ℕ → ℕ
sum [] = 0
sum (n ∷ ns) = n + sum ns

-- A share is `num` out of `base`, both scaled by the total of accounts where counts are compared.
pub record Quotas : Type 0 where
  pub total : ℕ
  pub base : ℕ
  pub num : String → ℕ

abbrev at_least_one : ℕ → ℕ
at_least_one n = if ltb 0 n then n else 1

weight_of : String → ℕ
unfolding Dict.get
weight_of r = count_of region_assign_p0_weights r

-- The targets of `pick_region`: SG and US share 0.15 = 3/20 once there are five accounts, and the
-- rest goes to HK, JP and TW by their weights.
unfoldable pub quotas : Dict ℕ → List String → Quotas
unfolding weight_of
quotas existing candidates =
    let total = sum (map (count_of existing) candidates) + 1 in
    let p1_members = keep_if (λ r. member r candidates) region_assign_p1 in
    let p1_on = leb 5 total && not (is_empty p1_members) in
    let p0_members = keep_if (λ r. member r candidates) region_assign_p0 in
    let p0_weight_sum = at_least_one (sum (map weight_of p0_members)) in
    let members = at_least_one (length p1_members) in
    record {
      total = total;
      base = 20 * members * p0_weight_sum;
      num = λ r.
          if member r p1_members
          then (if p1_on then 3 * p0_weight_sum else 0)
          else (if p1_on then 17 else 20)
            * members
            * (if member r candidates then weight_of r else 0);
    }

-- `deficit(a) < deficit(b)`, with both sides multiplied out: target share less actual share.
abbrev pub deficit_lt : Quotas → Dict ℕ → String → String → Bool
deficit_lt q existing a b =
    ltb (q.num a * q.total + count_of existing b * q.base)
      (q.num b * q.total + count_of existing a * q.base)

-- `max(candidates, key=deficit)`: the first of the largest.
unfoldable pub max_deficit : Quotas → Dict ℕ → String → List String → String
max_deficit q existing best [] = best
max_deficit q existing best (r ∷ rs) =
    max_deficit q existing (if deficit_lt q existing best r then r else best) rs

pick_from : Dict ℕ → List String → Option String
pick_from existing [] = none
pick_from existing (r ∷ rs) = some (max_deficit (quotas existing (r ∷ rs)) existing r rs)

-- `pick_region`
unfoldable pub pick_region : Dict ℕ → Option Registry → Option String
unfolding pick_from
pick_region existing active = pick_from existing (assignable_regions active)
