-- ===== src/ClientPool/Admission.antt =====
-- app/client_pool.py: which exits serve, `begin_request` and `end_request`.
pub mod Laws
pub mod Keys
pub mod Exclusive
use zcode2api.Prelude.{
  ℕ, String, Bool, true, false, not, ◌&&◌, ◌||◌, Option, none, some, List, [], ◌∷◌, ◌++◌, str_eq,
  ◌==◌, if◌then◌else◌, any, keep_if, find_first, member, truthy, nonempty, opt_text, text_or,
  is_some, is_none, is_empty,
}
use zcode2api.Prelude.Dict
use zcode2api.Prelude.Dict.{Dict}
use zcode2api.Prelude.Json.{decimal}
use zcode2api.Egress.{Url, Identity, Slot, same_identity, managed_port, slot_identity}
use zcode2api.Egress.Policy.{EgressPolicy, ClaimBinding, binding_identity, binding_proxy, mode}
use zcode2api.ClientPool.Circuit.{Breaker, quarantined, begun, ended, recorded, present}
use zcode2api.ClientPool.{
  same_text, same_exit, BreakerKey, same_key, Breakers, breaker_at, set_breaker, Known, Cached,
  Operation, Pool, is_closed_identity, close_all,
}
use zcode2api.ClientPool.Registry.{Files, RegistryFile, Retirement, Node, load_registry}

abbrev pub known_client : ℕ → Pool → Known
known_client c pool = elim (find_first (λ k. k.client == c) pool.known) [
  | none ↦ record { client = c; proxy = none; identity = none; purpose = none }
  | some k ↦ k
]

module _ (url_of : String → Option Url) where
  -- `proxy_identity` of a pool whose registry is loaded, as in all that follows.
  abbrev pub proxy_identity : Pool → Option String → Option Identity
  proxy_identity pool proxy = slot_identity url_of proxy pool.slots

  abbrev pub breaker_key : Pool → Option String → Option String → Option Identity → BreakerKey
  breaker_key pool proxy purpose identity = record {
    purpose = text_or (opt_text purpose) "chat";
    proxy = proxy;
    identity = elim identity [ none ↦ proxy_identity pool proxy | some i ↦ some i ];
  }

  -- The part of `claim_binding_eligible` after `load_registry`; the digest of the file does not change
  -- within the call.
  node_serves : Option (Dict Node) → ClaimBinding → Bool
  node_serves none b = false
  node_serves (some nodes) b = elim (Dict.get b.node_id nodes) [
    | none ↦ false
    | some n ↦
        (n.port == b.port)
        && (n.epoch == b.epoch)
        && str_eq n.region b.region
        && n.has_sources
        && not n.leaving
  ]

  slot_serves : Dict Slot → ClaimBinding → Bool
  slot_serves slots b = elim (Dict.get (decimal b.port) slots) [
    | none ↦ false
    | some slot ↦ str_eq slot.region b.region && not (str_eq slot.admission "empty")
  ]

  unfoldable pub claim_binding_eligible : Files → Pool → ClaimBinding → Bool
  unfolding node_serves slot_serves
  claim_binding_eligible files pool b =
      same_exit (proxy_identity pool (some (binding_proxy b))) (some (binding_identity b))
      && slot_serves pool.slots b
      && not (is_closed_identity pool (binding_identity b))
      && node_serves files.lifecycle b

  admitted : Dict Slot → ℕ → Bool
  admitted slots port = elim (Dict.get (decimal port) slots) [
    | none ↦ false
    | some slot ↦ member slot.admission ("active" ∷ "fallback" ∷ [])
  ]

  managed_eligible : Files → Pool → ℕ → Option Identity → Option Identity → Option String → Bool
  unfolding admitted
  managed_eligible files pool port none identity purpose = false
  managed_eligible files pool port (some current) identity purpose =
      if is_closed_identity pool current
        || (is_some identity && not (same_exit identity (some current)))
      then false
      else if str_eq (opt_text purpose) "claim" && str_eq pool.policy.claim_mode "proxy"
      then elim (find_first (λ b. same_identity (binding_identity b) current)
          pool.policy.claim_bindings) [
            | none ↦ false
            | some b ↦ claim_binding_eligible files pool b
          ]
      else admitted pool.slots port

  -- `proxy_eligible`
  unfoldable pub proxy_eligible :
      Files → Pool → Option String → Option Identity → Option String → Bool
  unfolding managed_eligible
  proxy_eligible files pool proxy identity purpose =
      if is_empty pool.slots then is_none identity else elim (managed_port url_of proxy) [
        | none ↦ is_none identity
        | some port ↦ managed_eligible files pool port (proxy_identity pool proxy) identity purpose
      ]

  -- `is_proxy_quarantined`
  unfoldable pub is_proxy_quarantined :
      ℕ → Pool → Option String → Option String → Option Identity → Bool
  unfolding quarantined breaker_at
  is_proxy_quarantined now pool proxy purpose identity =
      truthy proxy
      && quarantined now (breaker_at (breaker_key pool proxy purpose identity) pool.breakers)

  abbrev put_breaker : BreakerKey → Option Breaker → Pool → Pool
  put_breaker key none pool = pool
  put_breaker key (some b) pool = record pool { breakers = set_breaker key b pool.breakers }

  pub admit : ℕ → Files → Known → Pool → Pool × Option Bool
  admit now files k pool =
      let key = breaker_key pool k.proxy k.purpose k.identity in
      if not (proxy_eligible files pool k.proxy k.identity k.purpose)
        || is_proxy_quarantined now pool k.proxy k.purpose k.identity
      then (pool, none)
      else (
        put_breaker key (begun (breaker_at key pool.breakers)).0 pool,
        some (begun (breaker_at key pool.breakers)).1,
      )

  -- `begin_request`: whether the request is the probe of its exit; `none` where it raises a
  -- RegionOfflineError.
  unfoldable pub begin_request : ℕ → Files → ℕ → Pool → Pool × Option Bool
  unfolding admit
  begin_request now files c pool =
      let (p, read) = load_registry url_of files pool in
      if not (truthy (known_client c pool).proxy)
      then (pool, some false)
      else if not read
      then (p, none)
      else admit now files (known_client c p) p

  settle : ℕ → ℕ → Known → Bool → Option Bool → Bool → Pool → Pool
  settle cooldown now k probe success is_waf_block pool =
      let key = breaker_key pool k.proxy k.purpose k.identity in
      if is_some k.identity && not (same_exit k.identity (proxy_identity pool k.proxy))
      then pool
      else put_breaker key
          (ended cooldown now probe success is_waf_block (breaker_at key pool.breakers)) pool

  -- `end_request`; where the registry cannot be read it raises, after what was read.
  unfoldable pub end_request : ℕ → ℕ → Files → ℕ → Bool → Option Bool → Bool → Pool → Pool
  unfolding settle
  end_request cooldown now files c probe success is_waf_block pool =
      let (p, read) = load_registry url_of files pool in
      if not (truthy (known_client c pool).proxy)
      then pool
      else if not read
      then p
      else settle cooldown now (known_client c p) probe success is_waf_block p
