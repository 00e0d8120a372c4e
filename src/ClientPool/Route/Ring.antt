-- ===== src/ClientPool/Route/Ring.antt =====
-- app/client_pool.py: an account keeps to the exits of its own region, the first that serves from its own
-- place in the ring.
use mathlib.Core.Path.{subst}
use mathlib.Core.Option.{some-injective}
use zcode2api.Prelude.{
  ℕ, zero, suc, ◌+◌, ◌%◌, ◌<◌, ◌≡◌, inl, inr, sym, ap, ◌∙◌, String, Bool, true, false, ◌||◌, Option,
  some, List, str_eq, get_elem?, length, opt_text, nonempty, strip, arith, Among, Among-get_elem?,
  Option-cases, Bool-cases,
}
use zcode2api.Prelude.Dict
use zcode2api.Account.{Account}
use zcode2api.Egress.{Url}
use zcode2api.ClientPool.{Pool}
use zcode2api.ClientPool.Registry.{Files, loaded_regions}
use zcode2api.ClientPool.Route.{
  exit, binding_index, serves, first_in_ring, bound_port, resolve_proxy, inherited_exit,
  exit_or_none,
}

module _ (url_of : String → Option Url) (hash_of : String → ℕ) (now : ℕ) (files : Files)
    (pool : Pool) (purpose : Option String) where
  abbrev works : String → Bool
  works = serves url_of hash_of now files pool purpose

  -- The exit found is the first that serves, `offset` places after the start.
  pub record First (ports : List String) (start : ℕ) (left : ℕ) (p : String) : Type 0 where
    pub offset : ℕ
    pub inside : offset < left
    pub found : get_elem? ports ((start + offset) % length ports) ≡ some p
    pub serving : works p ≡ true
    pub before :
        (i : ℕ) (q : String)
        → i < offset
        → get_elem? ports ((start + i) % length ports) ≡ some q
        → works q ≡ false

  later-before :
      (ports : List String) (start left : ℕ) (p c : String)
      → get_elem? ports (start % length ports) ≡ some c
      → works c ≡ false
      → (next : First ports (suc start) left p) → (i : ℕ) (q : String) → i < suc next.offset
      → get_elem? ports ((start + i) % length ports) ≡ some q
      → works q ≡ false
  later-before ports start left p c e idle next zero q l at =
      let same : get_elem? ports (start % length ports) ≡ some q =
        ap (λ n. get_elem? ports (n % length ports)) (omega arith) ∙ at in
      subst (λ x. works x ≡ false) (some-injective c q (sym e ∙ same)) idle
  later-before ports start left p c e idle next (suc i) q l at =
      next.before i q (omega (arith, l))
        (ap (λ n. get_elem? ports (n % length ports)) (omega arith) ∙ at)

  later :
      (ports : List String) (start left : ℕ) (p c : String)
      → get_elem? ports (start % length ports) ≡ some c
      → works c ≡ false
      → First ports (suc start) left p
      → First ports start (suc left) p
  later ports start left p c e idle next = record {
    offset = suc next.offset;
    inside = omega (arith, next.inside);
    found = ap (λ n. get_elem? ports (n % length ports)) (omega arith) ∙ next.found;
    serving = next.serving;
    before = later-before ports start left p c e idle next;
  }

  first_in_ring-First :
      (ports : List String) (start left : ℕ) (p : String)
      → first_in_ring url_of hash_of now files pool purpose ports start left ≡ some p
      → First ports start left p
  unfolding first_in_ring
  first_in_ring-First ports start zero p h = absurd (ground arith)
  first_in_ring-First ports start (suc left) p h =
      elim (Option-cases (get_elem? ports (start % length ports))) [
        | inl e ↦ absurd (ground (arith, e))
        | inr (c, e) ↦ elim (Bool-cases (works c)) [
          | inl serving ↦ record {
            offset = 0;
            inside = omega arith;
            found = ground (arith, e, serving);
            serving = ground (arith, e, serving);
            before = λ i q l _. absurd (omega (arith, l));
          }
          | inr idle ↦
              later ports start left p c e idle
                (first_in_ring-First ports (suc start) left p (ground (arith, e, idle)))
        ]
      ]

  -- `_bound_port` gives an account the first exit that serves, counted around its region's list from
  -- the account's own place.
  pub bound_port-First :
      (account_id : String) (ports : List String) (p : String)
      → bound_port url_of hash_of now files pool account_id ports purpose ≡ some p
      → First ports (binding_index url_of hash_of account_id ports) (length ports) p
  unfolding bound_port
  bound_port-First account_id ports p h =
      first_in_ring-First ports (binding_index url_of hash_of account_id ports) (length ports) p h

  inherited_exit-region :
      (global_proxies : List String) (a : Account) (r : String) (ports : List String) (p : String)
      → nonempty (strip (opt_text a.proxy)) ≡ false
      → a.assigned_region ≡ some r
      → nonempty r ≡ true
      → Dict.get r (loaded_regions url_of files pool) ≡ some ports
      → inherited_exit url_of hash_of now files pool global_proxies a purpose ≡ exit p
      → bound_port url_of hash_of now files pool a.id ports purpose ≡ some p
  unfolding inherited_exit exit_or_none
  inherited_exit-region global_proxies a r ports p blank e named found h =
      ground (arith, blank, e, named, found)

  -- An account of a region that has no proxy of its own, under a policy that fixes no exit, connects only
  -- through an exit of that region that serves: it never leaves the region and never falls back to the
  -- global exits.
  pub resolve_proxy-region :
      (global_proxies : List String) (a : Account) (r : String) (ports : List String) (p : String)
      → nonempty (strip (opt_text a.proxy)) ≡ false
      → a.assigned_region ≡ some r
      → nonempty r ≡ true
      → Dict.get r (loaded_regions url_of files pool) ≡ some ports
      → (str_eq pool.policy.chat_mode "proxy" || str_eq pool.policy.claim_mode "proxy") ≡ false
      → resolve_proxy url_of hash_of now files pool global_proxies a purpose ≡ exit p
      → Among p ports × (works p ≡ true)
  unfolding resolve_proxy
  resolve_proxy-region global_proxies a r ports p blank e named found inherits h =
      let bound =
        inherited_exit-region global_proxies a r ports p blank e named found (ground arith) in
      let first = bound_port-First a.id ports p bound in
      (
        Among-get_elem? ports
            ((binding_index url_of hash_of a.id ports + first.offset) % length ports) p first.found,
        first.serving,
      )
