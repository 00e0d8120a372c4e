-- ===== src/ClientPool.antt =====
-- app/client_pool.py: `AccountClientPool`. Here its state, and the
-- children model the breaker itself, the registry of exits, the admission of requests, the choice of an
-- exit, and the clients with the operations that hold them. The files that a call reads are one snapshot to the call.
pub mod Circuit
pub mod Registry
pub mod Admission
pub mod Route
pub mod Clients
mod Tests
use zcode2api.Prelude.{
  ℕ, String, Bool, true, false, not, ◌&&◌, ◌||◌, Option, none, some, List, [], ◌∷◌, ◌++◌, str_eq,
  ◌==◌, if◌then◌else◌, any, keep_if, find_first, member, truthy, nonempty, opt_text, text_or,
  is_some, is_none, is_empty,
}
use zcode2api.Prelude.Dict
use zcode2api.Prelude.Dict.{Dict}
use zcode2api.Prelude.Json.{decimal}
use zcode2api.Egress.{Url, Identity, Slot, same_identity, managed_port, slot_identity}
use zcode2api.Egress.Policy.{EgressPolicy, ClaimBinding, binding_identity, binding_proxy, mode}
use zcode2api.ClientPool.Circuit.{Breaker, quarantined, begun, ended, recorded, present}

abbrev pub same_text : Option String → Option String → Bool
same_text none none = true
same_text (some a) (some b) = str_eq a b
same_text _ _ = false

abbrev pub same_exit : Option Identity → Option Identity → Bool
same_exit none none = true
same_exit (some a) (some b) = same_identity a b
same_exit _ _ = false

-- A key of `_circuit_breakers`.
pub record BreakerKey : Type 0 where
  pub purpose : String
  pub proxy : Option String
  pub identity : Option Identity

abbrev pub same_key : BreakerKey → BreakerKey → Bool
same_key a b =
    str_eq a.purpose b.purpose && same_text a.proxy b.proxy && same_exit a.identity b.identity

abbrev pub Breakers : Type 0
Breakers = List (BreakerKey × Breaker)

unfoldable pub breaker_at : BreakerKey → Breakers → Option Breaker
breaker_at k [] = none
breaker_at k ((j, b) ∷ l) = if same_key j k then some b else breaker_at k l

unfoldable pub set_breaker : BreakerKey → Breaker → Breakers → Breakers
set_breaker k b [] = (k, b) ∷ []
set_breaker k b ((j, c) ∷ l) = if same_key j k then (j, b) ∷ l else (j, c) ∷ set_breaker k b l

-- What the pool remembers of a client: the dictionaries `_client_proxies`, `_client_identities` and
-- `_client_purposes`.
pub record Known : Type 0 where
  pub client : ℕ
  pub proxy : Option String
  pub identity : Option Identity
  pub purpose : Option String

-- A key of `_clients` with its client and the time of its last use.
pub record Cached : Type 0 where
  pub account_id : String
  pub purpose : Option String
  pub proxy : Option String
  pub identity : Option Identity
  pub client : ℕ
  pub last_active : ℕ

-- An `EgressOperation` of this pool that is not released, by its number.
pub record Operation : Type 0 where
  pub number : ℕ
  pub client : ℕ
  pub account_id : String
  pub proxy : Option String
  pub identity : Option Identity
  pub purpose : Option String

-- `closed` holds the clients that were closed; `next` numbers clients and operations.
pub record Pool : Type 0 where
  pub policy : EgressPolicy
  pub global_mode : String
  pub regions : Dict (List String)
  pub slots : Dict Slot
  pub digest : Option String
  pub closed_identities : List Identity
  pub breakers : Breakers
  pub known : List Known
  pub clients : List Cached
  pub retired : List ℕ
  pub operations : List Operation
  pub closed_accounts : List String
  pub closed : List ℕ
  pub next : ℕ

abbrev pub is_closed_identity : Pool → Identity → Bool
is_closed_identity pool i = any (same_identity i) pool.closed_identities

-- `_closed_identities.add`
abbrev pub close_all : List Identity → Pool → Pool
close_all is pool = record pool { closed_identities = is ++ pool.closed_identities }
