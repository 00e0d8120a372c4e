-- ===== src/ClientPool/Clients/Opened.antt =====
-- app/client_pool.py: `_get_client_locked` keeps the invariant, and gives a client that is open.
use zcode2api.Prelude.{
  ℕ, ◌≡◌, refl, String, Bool, true, false, not, ◌&&◌, Option, none, some, List, str_eq,
  if◌then◌else◌, find_first, find_first_holds, arith,
}
use zcode2api.Account.{Account}
use zcode2api.Egress.{Url, Identity}
use zcode2api.ClientPool.{Pool, Cached, same_text, same_exit}
use zcode2api.ClientPool.Admission.{proxy_identity}
use zcode2api.ClientPool.Route.{
  Exit, exit, no_proxy, region_offline, unknown_purpose, effective_mode,
}
use zcode2api.ClientPool.Registry.{Files, load_registry}
use zcode2api.ClientPool.Registry.Kept.{kept-load_registry}
use zcode2api.ClientPool.Clients.{
  Wanted, unresolved, given, is_closed, belongs, touched, evict, added, cached_for, open_client,
  provide, connect, connect_to, exit_for, reusable, policy_inherits, get_client,
}
use zcode2api.ClientPool.Clients.Held.{Sound, Good, Good-if, evict-Sound, added-Good, found-Open}

-- A search of the cache, or what is done without.
abbrev found_or : ℕ → Pool → Pool × Option ℕ → Option Cached → Pool × Option ℕ
found_or now pool fresh (some k) = (touched now k.client pool, some k.client)
found_or now pool fresh none = fresh

found_or-Good :
    (now : ℕ) (p : Cached → Bool) (pool : Pool) (fresh : Pool × Option ℕ) (o : Option Cached)
    → Sound pool
    → ((k : Cached) → p k ≡ true → is_closed pool k.client ≡ false)
    → Good fresh
    → find_first p pool.clients ≡ o
    → Good (found_or now pool fresh o)
found_or-Good now p pool fresh none s opens g e = g
found_or-Good now p pool fresh (some k) s opens g e =
    found-Open now p pool k s e (opens k (find_first_holds p pool.clients k e))

module _ (url_of : String → Option Url) (hash_of : String → ℕ) (global_proxies : List String)
    (now : ℕ) (files : Files) where
  pub load-Sound : (pool : Pool) → Sound pool → Sound (load_registry url_of files pool).0
  load-Sound pool s =
      kept-load_registry url_of Sound
        (λ p regions slots digest closed breakers h. record {
          held = h.held;
          cached = h.cached;
          waiting = h.waiting;
          numbered = h.numbered;
        })
        files pool s

  provide-Good :
      (pool : Pool) (a : Account) (purpose actual : Option String) (identity : Option Identity)
      → Sound pool
      → Good (provide url_of hash_of global_proxies now files pool a purpose actual identity)
  unfolding provide
  provide-Good pool a purpose actual identity s =
      let search : Cached → Bool = λ k.
        belongs a.id purpose k
        && same_text k.proxy actual
        && same_exit k.identity identity
        && not (is_closed pool k.client) in
      found_or-Good now search pool
        (added now a purpose actual identity (evict (belongs a.id purpose) pool), some pool.next)
        (find_first search pool.clients) s (λ k h. ground (arith, h))
        (added-Good now a purpose actual identity (evict (belongs a.id purpose) pool)
          (evict-Sound (belongs a.id purpose) pool s))
        refl

  connect-Good :
      (pool : Pool) (a : Account) (direct : Bool) (purpose actual : Option String)
      → Sound pool
      → Good (connect url_of hash_of global_proxies now files pool a direct purpose actual)
  unfolding connect
  connect-Good pool a direct purpose actual s =
      Good-if _ (pool, none) _ (s, tt)
        (provide-Good pool a purpose actual (proxy_identity url_of pool actual) s)

  connect_to-Good :
      (pool : Pool) (a : Account) (direct : Bool) (purpose : Option String) (e : Exit)
      → Sound pool
      → Good (connect_to url_of hash_of global_proxies now files pool a direct purpose e)
  unfolding connect_to
  connect_to-Good pool a direct purpose (exit p) s = connect-Good pool a direct purpose (some p) s
  connect_to-Good pool a direct purpose no_proxy s = connect-Good pool a direct purpose none s
  connect_to-Good pool a direct purpose region_offline s = (s, tt)
  connect_to-Good pool a direct purpose unknown_purpose s = (s, tt)

  open_client-Good :
      (pool : Pool) (a : Account) (purpose : Option String) (wanted : Wanted) (direct : Bool)
      → Sound pool
      → Good (open_client url_of hash_of global_proxies now files pool a purpose wanted direct)
  unfolding open_client cached_for reusable
  open_client-Good pool a purpose (given p) direct s = connect_to-Good pool a direct purpose _ s
  open_client-Good pool a purpose unresolved direct s =
      let fresh =
        connect_to url_of hash_of global_proxies now files pool a direct purpose
          (exit_for url_of hash_of global_proxies now files pool a direct purpose unresolved) in
      let good =
        connect_to-Good pool a direct purpose
          (exit_for url_of hash_of global_proxies now files pool a direct purpose unresolved) s in
      let search = reusable url_of hash_of global_proxies now files pool a direct purpose in
      elim (policy_inherits pool purpose)
        as (λ b.
          Good (found_or now pool fresh (if b then find_first search pool.clients else none))) [
            | true ↦
                found_or-Good now search pool fresh (find_first search pool.clients) s
                  (λ k h. ground (arith, h)) good refl
            | false ↦ good
          ]

  pub get_client-Good :
      (a : Account) (purpose : Option String) (wanted : Wanted) (pool : Pool)
      → Sound pool
      → Good (get_client url_of hash_of global_proxies now files a purpose wanted pool)
  unfolding get_client
  get_client-Good a purpose wanted pool s =
      let p = (load_registry url_of files pool).0 in
      Good-if _ (p, none) _ (load-Sound pool s, tt)
        (elim (effective_mode p purpose)
          as (λ o. Good (elim o [
            | none ↦ (p, none)
            | some m ↦
                open_client url_of hash_of global_proxies now files p a purpose wanted
                  (str_eq m "direct")
          ])) [
            | none ↦ (load-Sound pool s, tt)
            | some m ↦ open_client-Good p a purpose wanted (str_eq m "direct") (load-Sound pool s)
          ])
