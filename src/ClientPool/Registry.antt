-- ===== src/ClientPool/Registry.antt =====
-- app/client_pool.py: `load_registry`, which adopts the registry file and retires identities.
pub mod Kept
use zcode2api.Prelude.{
  ℕ, String, Bool, true, false, not, ◌&&◌, ◌||◌, Option, none, some, List, [], ◌∷◌, ◌++◌, str_eq,
  ◌==◌, if◌then◌else◌, any, keep_if, find_first, member, truthy, nonempty, opt_text, text_or,
  is_some, is_none, is_empty,
}
use zcode2api.Prelude.Dict
use zcode2api.Prelude.Dict.{Dict}
use zcode2api.Prelude.Json.{decimal}
use zcode2api.Egress.{Url, Identity, Slot, same_identity, managed_port, slot_identity}
use zcode2api.Egress.Policy.{EgressPolicy, ClaimBinding, binding_identity, binding_proxy, mode}
use zcode2api.ClientPool.Circuit.{Breaker, quarantined, begun, ended, recorded, present}
use zcode2api.ClientPool.{
  same_text, same_exit, BreakerKey, same_key, Breakers, breaker_at, set_breaker, Known, Cached,
  Operation, Pool, is_closed_identity, close_all,
}

-- The registry file after `json.loads` and `validate_registry`; `none` where one of the two raises.
pub record RegistryFile : Type 0 where
  pub digest : String
  pub content : Option (Dict (List String) × Dict Slot)

-- The retirement request: absent, unreadable, or the identities that it lists.
pub data Retirement : Type 0 where
  absent unreadable : Retirement
  listed : List Identity → Retirement

-- A node of the file `node_lifecycle.json`.
pub record Node : Type 0 where
  pub port : ℕ
  pub epoch : ℕ
  pub region : String
  pub has_sources : Bool
  pub leaving : Bool

-- What a call finds on disk. `lifecycle` is `none` where the file is missing or no JSON.
pub record Files : Type 0 where
  pub registry : Option RegistryFile
  pub retirement : Retirement
  pub lifecycle : Option (Dict Node)

module _ (url_of : String → Option Url) where
  -- The clients whose exit is not what it was when they were made.
  moved : Dict Slot → List Known → List Identity
  moved slots [] = []
  moved slots (k ∷ ks) =
      let rest = moved slots ks in
      elim k.identity [
        | none ↦ rest
        | some i ↦
            if same_exit (some i) (slot_identity url_of k.proxy slots) then rest else i ∷ rest
      ]

  -- `self._circuit_breakers.pop` for the keys of these identities.
  without : List Identity → Breakers → Breakers
  without is [] = []
  without is ((k, b) ∷ l) =
      let rest = without is l in
      elim k.identity [
        | none ↦ (k, b) ∷ rest
        | some i ↦ if any (same_identity i) is then rest else (k, b) ∷ rest
      ]

  adopt : String → Dict (List String) → Dict Slot → Pool → Pool
  unfolding moved without
  adopt digest regions slots pool = record (close_all (moved slots pool.known) pool) {
    regions = regions;
    slots = slots;
    digest = some digest;
    breakers = without (moved slots pool.known) pool.breakers;
  }

  adopt_content : String → Option (Dict (List String) × Dict Slot) → Pool → Pool × Bool
  unfolding adopt
  adopt_content digest none pool = (pool, false)
  adopt_content digest (some (regions, slots)) pool =
      if not (is_empty pool.slots) && is_empty slots
      then (pool, false)
      else (adopt digest regions slots pool, true)

  install : RegistryFile → Pool → Pool × Bool
  unfolding adopt_content
  install file pool =
      if same_text pool.digest (some file.digest)
      then (pool, true)
      else adopt_content file.digest file.content pool

  load_from : Option RegistryFile → Retirement → Pool → Pool × Bool
  unfolding install
  load_from none retirement pool = (pool, is_empty pool.slots)
  load_from (some file) absent pool = install file pool
  load_from (some file) unreadable pool = (pool, false)
  load_from (some file) (listed is) pool = install file (close_all is pool)

  -- `load_registry`: the pool after it, and whether it succeeded; otherwise it raises a
  -- RegionOfflineError.
  unfoldable pub load_registry : Files → Pool → Pool × Bool
  unfolding load_from
  load_registry files pool = load_from files.registry files.retirement pool

  -- The regions that the call to `load_registry` returns: none while the file is missing.
  abbrev pub loaded_regions : Files → Pool → Dict (List String)
  loaded_regions files pool = if is_some files.registry then pool.regions else []
