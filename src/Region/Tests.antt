-- ===== src/Region/Tests.antt =====
-- Runs of `pick_region`, and the theorems at concrete registries.
use zcode2api.Prelude.{ℕ, ◌≡◌, refl, some, none, [], ◌∷◌}
use zcode2api.Prelude.Dict
use zcode2api.Prelude.Dict.{Dict}
use zcode2api.Region.{Registry, max_deficit, assignable_regions, quotas, pick_region}
use zcode2api.Region.Assign.{Picked, pick_region-Picked}

program : Unit {0}
unfolding pick_region Dict.get assignable_regions max_deficit quotas
program = tt

abbrev two_regions : Registry
two_regions =
    ("HK", "http://127.0.0.1:21101" ∷ []) ∷ ("SG", "http://127.0.0.1:21401" ∷ []) ∷ ("TW", []) ∷ []

abbrev four_in_hk : Dict ℕ
four_in_hk = ("HK", 4) ∷ []

-- The fifth account opens the second tier.
picks_sg : pick_region four_in_hk (some two_regions) ≡ some "SG"
unfolding program
picks_sg = refl

picks_hk : pick_region [] (some two_regions) ≡ some "HK"
unfolding program
picks_hk = refl

no_registry : pick_region four_in_hk none ≡ none
unfolding program
no_registry = refl

pick_region-Picked_example :
    Picked four_in_hk two_regions (pick_region four_in_hk (some two_regions))
pick_region-Picked_example = pick_region-Picked four_in_hk two_regions
