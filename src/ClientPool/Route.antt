-- ===== src/ClientPool/Route.antt =====
-- app/client_pool.py: which exit an account's request takes: `_binding_index`, `_bound_port`,
-- `get_healthy_regions`, `resolve_proxy`. `hash_of` is the number of an MD5 digest, `global_proxies` the
-- setting of that name. The registry is loaded and does not change within a call.
pub mod Ring
use zcode2api.Prelude.{
  ℕ, ◌+◌, ◌%◌, String, Bool, true, false, not, ◌&&◌, ◌||◌, Option, none, some, List, [], ◌∷◌, ◌++◌,
  str_eq, ◌==◌, zero, suc, if◌then◌else◌, ◌>>=◌, any, keep_if, find_first, get_elem?, length, map,
  member, truthy, nonempty, opt_text, strip, is_some, is_none, is_empty,
}
use zcode2api.Prelude.Dict
use zcode2api.Prelude.Dict.{Dict}
use zcode2api.Account.{Account}
use zcode2api.Egress.{Url, Identity}
use zcode2api.Egress.Policy.{
  EgressPolicy, ClaimBinding, binding, binding_identity, binding_proxy, mode,
}
use zcode2api.ClientPool.{Pool}
use zcode2api.ClientPool.Registry.{Files, loaded_regions}
use zcode2api.ClientPool.Admission.{proxy_eligible, is_proxy_quarantined, claim_binding_eligible}

-- What `resolve_proxy` gives: an exit, a direct connection, or a RegionOfflineError; or the ValueError
-- of an unknown purpose.
pub data Exit : Type 0 where
  exit : String → Exit
  no_proxy region_offline unknown_purpose : Exit

-- `effective_mode`
unfoldable pub effective_mode : Pool → Option String → Option String
effective_mode pool purpose = mode pool.policy purpose pool.global_mode

module _ (url_of : String → Option Url) (hash_of : String → ℕ) where
  -- `_binding_index`
  unfoldable pub binding_index : String → List String → ℕ
  binding_index account_id [] = 0
  binding_index account_id (p ∷ ports) =
      if nonempty account_id then hash_of account_id % length (p ∷ ports) else 0

  module _ (now : ℕ) (files : Files) (pool : Pool) where
    abbrev pub serves : Option String → String → Bool
    serves purpose port =
        not (is_proxy_quarantined url_of now pool (some port) purpose none)
        && proxy_eligible url_of files pool (some port) none purpose

    -- `for offset in range(len(region_proxies))`, with the offsets that are left.
    unfoldable pub first_in_ring : Option String → List String → ℕ → ℕ → Option String
    first_in_ring purpose ports start zero = none
    first_in_ring purpose ports start (suc left) =
        let rest = first_in_ring purpose ports (suc start) left in
        elim (get_elem? ports (start % length ports)) [
          | none ↦ none
          | some candidate ↦ if serves purpose candidate then some candidate else rest
        ]

    -- `_bound_port`
    unfoldable pub bound_port : String → List String → Option String → Option String
    unfolding first_in_ring binding_index
    bound_port account_id ports purpose =
        first_in_ring purpose ports (binding_index account_id ports) (length ports)

    -- `get_healthy_regions`: `none` where regions are not looked at.
    unfoldable pub healthy_regions : String → Option (List String)
    unfolding effective_mode
    healthy_regions purpose =
        if str_eq (opt_text (effective_mode pool (some purpose))) "direct"
          || (str_eq purpose "chat" && str_eq pool.policy.chat_mode "proxy")
        then none
        else if str_eq purpose "claim" && str_eq pool.policy.claim_mode "proxy"
        then some (
            map (λ b. b.region)
              (keep_if
                (λ b.
                  claim_binding_eligible url_of files pool b
                  && not (
                      is_proxy_quarantined url_of now pool (some (binding_proxy b)) (some purpose)
                        (some (binding_identity b))))
                pool.policy.claim_bindings))
        else if is_none files.registry
        then none
        else some (
            map (λ r. r.0)
              (keep_if (λ r. any (serves (some purpose)) r.1) (loaded_regions url_of files pool)))

    claim_exit : Option ClaimBinding → Exit
    claim_exit none = region_offline
    claim_exit (some b) =
        if not (claim_binding_eligible url_of files pool b)
          || is_proxy_quarantined url_of now pool (some (binding_proxy b)) (some "claim")
              (some (binding_identity b))
        then region_offline
        else exit (binding_proxy b)

    exit_or_none : Option String → Exit
    exit_or_none none = no_proxy
    exit_or_none (some p) = exit p

    abbrev distinct : List String → List String → List String
    distinct seen [] = []
    distinct seen (p ∷ l) =
        let rest = distinct (p ∷ seen) l in
        let others = distinct seen l in if member p seen then others else p ∷ rest

    abbrev concat : Dict (List String) → List String
    concat [] = []
    concat ((r, l) ∷ d) = l ++ concat d

    pick_hashed : String → List String → Exit
    pick_hashed account_id [] = no_proxy
    pick_hashed account_id (p ∷ l) =
        if nonempty account_id
        then elim (get_elem? (p ∷ l) (hash_of account_id % length (p ∷ l))) [
          | none ↦ no_proxy
          | some q ↦ exit q
        ]
        else exit p

    -- Without a region: the registry's exits that serve, or else those of the setting.
    global_exit : List String → String → Option String → Exit
    unfolding pick_hashed
    global_exit global_proxies account_id purpose =
        if is_empty pool.slots
        then pick_hashed account_id (keep_if (serves purpose) global_proxies)
        else pick_hashed account_id (distinct [] (keep_if (serves purpose) (concat pool.regions)))

    inherited_exit : List String → Account → Option String → Exit
    unfolding exit_or_none global_exit
    inherited_exit global_proxies a purpose =
        if nonempty (strip (opt_text a.proxy))
        then exit (strip (opt_text a.proxy))
        else if truthy a.assigned_region
        then exit_or_none (
            bound_port a.id
              (elim (Dict.get (opt_text a.assigned_region) (loaded_regions url_of files pool)) [
                | none ↦ []
                | some l ↦ l
              ])
              purpose)
        else global_exit global_proxies a.id purpose

    -- `resolve_proxy` of an account.
    unfoldable pub resolve_proxy : List String → Account → Option String → Exit
    unfolding claim_exit inherited_exit effective_mode
    resolve_proxy global_proxies a purpose = elim (effective_mode pool purpose) [
      | none ↦ unknown_purpose
      | some m ↦
          if str_eq m "direct"
          then no_proxy
          else if str_eq (opt_text purpose) "chat" && str_eq pool.policy.chat_mode "proxy"
          then exit pool.policy.chat_proxy_url
          else if str_eq (opt_text purpose) "claim" && str_eq pool.policy.claim_mode "proxy"
          then claim_exit (binding pool.policy a.assigned_region)
          else inherited_exit global_proxies a purpose
    ]
