-- ===== src/Gateway/Slots.antt =====
-- app/routes/gateway.py: the slots of requests in flight, `_inflight` with `_release_slot`, `_park_slot`
-- and `_reacquire_slot`. A slot box is the identifier whose slot the request holds.
use zcode2api.Prelude.{
  ℕ, ◌+◌, ◌-◌, ◌≤◌, ◌≡◌, ◌⊎◌, String, Bool, true, false, Option, none, some, str_eq, leb,
  if◌then◌else◌, arith, eq_iff, eq_refl,
}
use zcode2api.Prelude.Dict
use zcode2api.Prelude.Dict.{Dict, get-put, get-remove}

-- `_inflight.get(account_id, 0)`
unfoldable pub in_flight : Dict ℕ → String → ℕ
in_flight table id = elim (Dict.get id table) [ none ↦ 0 | some n ↦ n ]

-- `_release_slot`
unfoldable pub release_slot : String → Dict ℕ → Dict ℕ
release_slot id table =
    if leb (in_flight table id) 1
    then Dict.remove id table
    else Dict.put id (in_flight table id - 1) table

-- `_park_slot` of a request with a box.
unfoldable pub park_slot : Dict ℕ × Option String → Dict ℕ × Option String
park_slot (table, none) = (table, none)
park_slot (table, some id) = (release_slot id table, none)

-- `_reacquire_slot`: whether the request may go on.
unfoldable pub reacquire_slot :
    ℕ → String → Dict ℕ × Option String → (Dict ℕ × Option String) × Bool
reacquire_slot limit id (table, box) =
    if leb limit 0
    then ((table, box), true)
    else if leb limit (in_flight table id)
    then ((table, box), false)
    else ((Dict.put id (in_flight table id + 1) table, some id), true)

pub in_flight-release_slot :
    (id j : String) (table : Dict ℕ)
    → in_flight (release_slot id table) j
      ≡ (if str_eq id j then in_flight table j - 1 else in_flight table j)
unfolding in_flight release_slot
in_flight-release_slot id j table =
    ground (arith, get-remove id j table, get-put id j (in_flight table id - 1) table, eq_iff id j)

pub in_flight-put :
    (id j : String) (n : ℕ) (table : Dict ℕ)
    → in_flight (Dict.put id n table) j ≡ (if str_eq id j then n else in_flight table j)
unfolding in_flight
in_flight-put id j n table = ground (arith, get-put id j n table)

-- What the requests other than this one have in flight on an account.
abbrev pub others : String → Dict ℕ × Option String → ℕ
others j (table, none) = in_flight table j
others j (table, some id) = if str_eq id j then in_flight table j - 1 else in_flight table j

-- What becomes of a request that waited, of which the table was left as `table`.
pub record Regained (limit : ℕ) (id : String) (table : Dict ℕ) (r : (Dict ℕ × Option String) × Bool)
    : Type 0 where
  pub others_kept : (j : String) → others j r.0 ≡ in_flight table j
  pub outcome :
      (limit ≡ 0 × r ≡ ((table, none), true))
      ⊎ ((limit ≤ in_flight table id × r ≡ ((table, none), false))
          ⊎ (r.1 ≡ true × r.0.1 ≡ some id × in_flight r.0.0 id ≤ limit))

-- A request that gives its slot back to wait takes away nothing of what the others have in flight, on any
-- account. Whatever the others make of the table meanwhile, when it asks for a slot again it changes
-- nothing of theirs either: without a limit it goes on without a slot; where the account is full it is
-- turned away and the table left as it is; and else it gets a slot, with which the account holds no more
-- than the limit.
pub reacquire_slot-park_slot :
    (limit : ℕ) (id : String) (before between : Dict ℕ)
    → ((j : String) → others j (park_slot (before, some id)) ≡ others j (before, some id))
      × Regained limit id between
          (reacquire_slot limit id (between, (park_slot (before, some id)).1))
unfolding park_slot reacquire_slot
reacquire_slot-park_slot limit id before between = (
  (λ j. ground (arith, in_flight-release_slot id j before)),
  record {
    others_kept =
        λ j. ground (arith, in_flight-put id j (in_flight between id + 1) between, eq_iff id j);
    outcome = ground (arith, in_flight-put id id (in_flight between id + 1) between, eq_refl id);
  },
)
