-- ===== src/Egress.antt =====
-- app/egress.py: managed ports and the identity of a managed exit; `REGION_PORT_TIERS` of
-- app/constants.py. `urlsplit` is the parameter `url_of`: `none` where it, or reading the port, raises a
-- ValueError.
pub mod Policy
mod Tests
use zcode2api.Prelude.{
  ℕ, String, Bool, true, false, not, ◌&&◌, ◌||◌, Option, none, some, List, [], ◌∷◌, str_eq, leb,
  ◌==◌, if◌then◌else◌, any, member, truthy, opt_text, nonempty,
}
use zcode2api.Prelude.Dict
use zcode2api.Prelude.Dict.{Dict}
use zcode2api.Prelude.Json.{decimal}

pub record Tier : Type 0 where
  pub low : ℕ
  pub high : ℕ

-- `REGION_PORT_TIERS`
abbrev pub region_port_tiers : Dict Tier
region_port_tiers =
    ("HK", record { low = 21100; high = 21199 })
    ∷ ("TW", record { low = 21200; high = 21299 })
    ∷ ("JP", record { low = 21300; high = 21399 })
    ∷ ("SG", record { low = 21400; high = 21499 })
    ∷ ("US", record { low = 21500; high = 21599 })
    ∷ ("KR", record { low = 21600; high = 21699 })
    ∷ ("EU", record { low = 21700; high = 21799 })
    ∷ ("OTHER", record { low = 21800; high = 21899 })
    ∷ []

-- What the program reads of a split URL.
pub record Url : Type 0 where
  pub scheme : String
  pub hostname : String
  pub port : Option ℕ
  pub username : Option String
  pub password : Option String
  pub path : String
  pub query : String
  pub fragment : String

abbrev pub within : Tier → ℕ → Bool
within t port = leb t.low port && leb port t.high

-- The identity of a managed exit: its port, its node and the node's epoch on that port.
pub record Identity : Type 0 where
  pub port : ℕ
  pub node_id : String
  pub epoch : ℕ

abbrev pub same_identity : Identity → Identity → Bool
same_identity i j = (i.port == j.port) && str_eq i.node_id j.node_id && (i.epoch == j.epoch)

-- A slot of the registry.
pub record Slot : Type 0 where
  pub region : String
  pub node_id : Option String
  pub epoch : ℕ
  pub admission : String

module _ (url_of : String → Option Url) where
  local_port : Option Url → Option ℕ
  local_port none = none
  local_port (some url) =
      if not (member url.hostname ("127.0.0.1" ∷ "localhost" ∷ "::1" ∷ []))
        || not (str_eq url.scheme "http")
      then none
      else elim url.port [
        | none ↦ none
        | some p ↦ if any (λ t. within t.1 p) region_port_tiers then some p else none
      ]

  unfoldable pub managed_port : Option String → Option ℕ
  unfolding local_port
  managed_port proxy = if truthy proxy then local_port (url_of (opt_text proxy)) else none

  -- `slot_identity`. The key of a proxy without a managed port is `str(None)`, which no registry has.
  identity_at : Option ℕ → Dict Slot → Option Identity
  identity_at none slots = none
  identity_at (some port) slots = elim (Dict.get (decimal port) slots) [
    | none ↦ none
    | some slot ↦
        if truthy slot.node_id
        then some (record { port = port; node_id = opt_text slot.node_id; epoch = slot.epoch })
        else none
  ]

  unfoldable pub slot_identity : Option String → Dict Slot → Option Identity
  unfolding identity_at
  slot_identity proxy slots = identity_at (managed_port proxy) slots
