-- ===== src/Region/Assign.antt =====
-- app/region_assign.py: the region that `pick_region` chooses is live, and is the one that is
-- furthest below its target share.
use native.Mathlib.Decide.{dec_lt}
use mathlib.Core.Option.{some-injective}
use zcode2api.Prelude.{
  ℕ, zero, suc, ◌+◌, ◌*◌, ◌≤◌, ◌<◌, ◌≡◌, ap, refl, String, Bool, true, false, ◌||◌, Option, none,
  some, List, [], ◌∷◌, ◌++◌, map, arith, member, keep_if, if◌then◌else◌, eq_iff, str_eq, All,
  length,
}
use zcode2api.Prelude.Dict.{Dict}
use zcode2api.Region.{
  Registry, region_assign_p0, region_assign_p1, assignable_regions, count_of, sum, Quotas, quotas,
  deficit_lt, max_deficit, pick_region, pick_from, is_live, at_least_one, weight_of,
}

-- No entry of the list is further below its target than `best`.
abbrev IsMax : Quotas → Dict ℕ → String → List String → Type 0
IsMax q existing best = All (λ r. deficit_lt q existing best r ≡ false)

module _ (q : Quotas) (existing : Dict ℕ) where
  abbrev NotBeaten : String → String → Type 0
  NotBeaten a b = deficit_lt q existing a b ≡ false

  below_trans : (a b c : String) → NotBeaten b a → NotBeaten c b → NotBeaten c a
  below_trans a b c h k = ground arith

  -- The winner is not beaten by any entry of the scanned list.
  max_deficit-IsMax :
      (best : String) (rs : List String)
      → All (NotBeaten (max_deficit q existing best rs)) (best ∷ rs)
  unfolding max_deficit
  max_deficit-IsMax best [] = (ground arith, tt)
  max_deficit-IsMax best (r ∷ rs) =
      let n = if deficit_lt q existing best r then r else best in
      let rest = max_deficit-IsMax n rs in
      let over_best : NotBeaten n best = ground arith in
      let over_r : NotBeaten n r = ground arith in
      let top = max_deficit q existing n rs in
      (below_trans best n top over_best rest.0, (below_trans r n top over_r rest.0, rest.1))

  -- The winner is one of the entries.
  max_deficit-member :
      (best : String) (rs : List String)
      → member (max_deficit q existing best rs) (best ∷ rs) ≡ true
  unfolding max_deficit
  max_deficit-member best [] = ground (arith, eq_iff best best)
  max_deficit-member best (r ∷ rs) =
      ground (arith, max_deficit-member best rs, max_deficit-member r rs)

  -- If every entry has its target or more, the counts add up to the targets or more.
  sum_at_target :
      (r : String) (rs : List String)
      → All (NotBeaten r) rs
      → q.num r * q.total ≤ count_of existing r * q.base
      → sum (map q.num rs) * q.total ≤ sum (map (count_of existing) rs) * q.base
  sum_at_target r [] h le = omega arith
  sum_at_target r (s ∷ rs) h le =
      let step : q.num s * q.total ≤ count_of existing s * q.base = ground (arith, h.0) in
      omega (arith, sum_at_target r rs h.1 le)

-- The candidates when the flags say which regions are live.
abbrev live : Bool → Bool → Bool → Bool → Bool → List String
live hk jp tw sg us = keep_if (λ r. flag r) (region_assign_p0 ++ region_assign_p1)
  where
    flag : String → Bool
    flag r =
        if str_eq r "HK"
        then hk
        else if str_eq r "JP"
        then jp
        else if str_eq r "TW"
        then tw
        else if str_eq r "SG"
        then sg
        else us

-- The targets of the candidates add up to the whole, once one of the first tier is live.
targets-sum :
    (existing : Dict ℕ) (hk jp tw sg us : Bool)
    → (hk || jp || tw) ≡ true
    → let cs = live hk jp tw sg us in
      sum (map (quotas existing cs).num cs) ≡ (quotas existing cs).base
unfolding quotas
targets-sum existing true true true true true h = ground arith
targets-sum existing _ _ _ _ _ h = ground arith

-- Sums over a list with one account more than its counts exceed them.
below_target :
    (q : Quotas) (existing : Dict ℕ) (cs : List String) (r : String)
    → All (NotBeaten q existing r) cs
    → sum (map q.num cs) ≡ q.base
    → 0 < q.base
    → q.total ≡ sum (map (count_of existing) cs) + 1
    → count_of existing r * q.base < q.num r * q.total
below_target q existing cs r top whole some_base counted =
    elim (dec_lt (count_of existing r * q.base) (q.num r * q.total)) [
      | yes h ↦ h
      | no h ↦
          let over = sum_at_target q existing r cs top (omega arith) in
          let left : sum (map q.num cs) * q.total ≡ q.base * q.total =
            ap (λ (t : ℕ). t * q.total) whole in
          let right : q.base * q.total ≡ q.base * sum (map (count_of existing) cs) + q.base =
            grind arith in
          absurd (grind arith)
    ]

at_least_one_pos : (n : ℕ) → 0 < at_least_one n
at_least_one_pos n = ground arith

base_pos : (a b : ℕ) → 0 < a → 0 < b → 0 < 20 * a * b
base_pos (suc a) (suc b) h k = omega arith
base_pos zero b h k = elim h [ ]
base_pos (suc a) zero h k = elim k [ ]

quotas-base_pos : (existing : Dict ℕ) (cs : List String) → 0 < (quotas existing cs).base
unfolding quotas
quotas-base_pos existing cs =
    let p1 = length (keep_if (λ r. member r cs) region_assign_p1) in
    let p0 = sum (map weight_of (keep_if (λ r. member r cs) region_assign_p0)) in
    base_pos (at_least_one p1) (at_least_one p0) (at_least_one_pos p1) (at_least_one_pos p0)

abbrev pub Picked : Dict ℕ → Registry → Option String → Type 0
Picked existing active none =
    (is_live active "HK"
      || is_live active "JP"
      || is_live active "TW"
      || is_live active "SG"
      || is_live active "US")
    ≡ false
Picked existing active (some r) =
    (is_live active r ≡ true)
    × (member r (region_assign_p0 ++ region_assign_p1) ≡ true)
    × All
        (λ s. deficit_lt (quotas existing (assignable_regions (some active))) existing r s ≡ false)
        (assignable_regions (some active))

member-keep_if :
    (p : String → Bool) (r : String) (xs : List String)
    → member r (keep_if p xs) ≡ true
    → (p r ≡ true) × (member r xs ≡ true)
member-keep_if p r [] h = ground arith
member-keep_if p r (x ∷ xs) h = ground (arith, member-keep_if p r xs, eq_iff r x)

none_live :
    (active : Registry)
    → assignable_regions (some active) ≡ []
    → (is_live active "HK"
        || is_live active "JP"
        || is_live active "TW"
        || is_live active "SG"
        || is_live active "US")
      ≡ false
unfolding assignable_regions
none_live active h = ground arith

pick_from-Picked :
    (existing : Dict ℕ) (active : Registry) (cs : List String)
    → assignable_regions (some active) ≡ cs
    → Picked existing active (pick_from existing cs)
unfolding pick_from assignable_regions
pick_from-Picked existing active [] e = none_live active e
pick_from-Picked existing active (r ∷ rs) e =
    let q = quotas existing (r ∷ rs) in
    let top = max_deficit q existing r rs in
    let found : member top (assignable_regions (some active)) ≡ true =
      rw e (max_deficit-member q existing r rs) in
    let parts = member-keep_if (is_live active) top (region_assign_p0 ++ region_assign_p1) found in
    (parts.0, parts.1, rw e (max_deficit-IsMax q existing r rs))

-- A pick is none exactly when no assignable region has a live exit; a picked region has one, is of the
-- first two tiers, and no candidate is further below its target share.
pub pick_region-Picked :
    (existing : Dict ℕ) (active : Registry)
    → Picked existing active (pick_region existing (some active))
unfolding pick_region
pick_region-Picked existing active =
    pick_from-Picked existing active (assignable_regions (some active)) refl

-- `live` of the five flags is the candidate list.
assignable-live :
    (active : Registry)
    → assignable_regions (some active)
      ≡ live
          (is_live active "HK")
          (is_live active "JP")
          (is_live active "TW")
          (is_live active "SG")
          (is_live active "US")
unfolding assignable_regions
assignable-live active = refl

quotas-total :
    (existing : Dict ℕ) (cs : List String)
    → (quotas existing cs).total ≡ sum (map (count_of existing) cs) + 1
unfolding quotas
quotas-total existing cs = refl

below_target_from :
    (existing : Dict ℕ) (cs : List String) (r : String)
    → pick_from existing cs ≡ some r
    → sum (map (quotas existing cs).num cs) ≡ (quotas existing cs).base
    → count_of existing r * (quotas existing cs).base
      < (quotas existing cs).num r * (quotas existing cs).total
unfolding pick_from
below_target_from existing [] r e whole = cc
below_target_from existing (c ∷ cs) r e whole =
    let q = quotas existing (c ∷ cs) in
    rw (← some-injective _ _ e) (
      below_target q existing (c ∷ cs) (max_deficit q existing c cs)
        (max_deficit-IsMax q existing c cs) whole (quotas-base_pos existing (c ∷ cs))
        (quotas-total existing (c ∷ cs)))

-- With a live exit in the first tier, the picked region is strictly below its target share of the
-- accounts, the new one counted: no pick pushes a region that has its share already.
pub pick_region-below_target :
    (existing : Dict ℕ) (active : Registry) (r : String)
    → (is_live active "HK" || is_live active "JP" || is_live active "TW") ≡ true
    → pick_region existing (some active) ≡ some r
    → let q = quotas existing (assignable_regions (some active)) in
      count_of existing r * q.base < q.num r * q.total
unfolding pick_region
pick_region-below_target existing active r h picks =
    below_target_from existing (assignable_regions (some active)) r picks
      (rw assignable-live (targets-sum existing _ _ _ _ _ h))
