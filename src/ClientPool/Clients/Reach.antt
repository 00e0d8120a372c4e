-- ===== src/ClientPool/Clients/Reach.antt =====
-- app/client_pool.py: the methods that change clients and operations, in whatever order and with
-- whatever files, close no client of an operation in flight.
use zcode2api.Prelude.{
  All-map, All-keep_if, ℕ, ◌<◌, ◌≡◌, refl, String, Bool, true, false, not, ◌&&◌, Option, none, some,
  List, [], ◌∷◌, ◌==◌, str_eq, if◌then◌else◌, any, keep_if, find_first, All, All-Among,
  Among-find_first, arith, is_some,
}
use zcode2api.Account.{Account}
use zcode2api.Egress.{Url, Identity}
use zcode2api.Egress.Policy.{EgressPolicy}
use zcode2api.ClientPool.{close_all, Pool, Cached, Operation, same_exit}
use zcode2api.ClientPool.Registry.{Files, Retirement, absent, unreadable, listed, load_registry}
use zcode2api.ClientPool.Admission.{known_client}
use zcode2api.ClientPool.Clients.{
  Wanted, is_closed, close_retired, evict, get_client, register, registered, acquire_operation,
  derive_operation, departs, coordinate_retirement, retire_listed, prune_idle, release_operation,
  close_account, aclose,
}
use zcode2api.ClientPool.Clients.Held.{
  Sound, Open, Good, counted-Sound, close_retired-Sound, evict-Sound,
}
use zcode2api.ClientPool.Clients.Opened.{load-Sound, get_client-Good}

-- The pool of a process that has just started.
abbrev pub new_pool : EgressPolicy → String → Pool
new_pool policy global_mode = record {
  policy = policy;
  global_mode = global_mode;
  regions = [];
  slots = [];
  digest = none;
  closed_identities = [];
  breakers = [];
  known = [];
  clients = [];
  retired = [];
  operations = [];
  closed_accounts = [];
  closed = [];
  next = 0;
}

module _ (url_of : String → Option Url) (hash_of : String → ℕ) (global_proxies : List String) where
  -- One call, at a time `now` and with the files as they are then.
  pub data Step : Pool → Pool → Type 0 where
    gets :
        (now : ℕ) (files : Files) (a : Account) (purpose : Option String) (wanted : Wanted)
        (p : Pool)
        → Step p (get_client url_of hash_of global_proxies now files a purpose wanted p).0
    acquires :
        (now : ℕ) (files : Files) (a : Account) (purpose : Option String) (wanted : Wanted)
        (identity : Option Identity) (p : Pool)
        → Step p
            (acquire_operation url_of hash_of global_proxies now files a purpose wanted identity
              p).0
    derives :
        (now : ℕ) (files : Files) (parent : ℕ) (a : Account) (purpose : Option String)
        (wanted : Wanted) (identity : Option Identity) (p : Pool)
        → Step p
            (derive_operation url_of hash_of global_proxies now files parent a purpose wanted
              identity p).0
    releases : (number : ℕ) (p : Pool) → Step p (release_operation number p)
    prunes :
        (now : ℕ) (files : Files) (idle_timeout : ℕ) (p : Pool)
        → Step p (prune_idle url_of hash_of global_proxies now files idle_timeout p)
    coordinates :
        (now : ℕ) (files : Files) (consumer meant : Bool) (p : Pool)
        → Step p (coordinate_retirement url_of hash_of global_proxies now files consumer meant p)
    closes_account : (id : String) (p : Pool) → Step p (close_account id p)
    closes_all : (p : Pool) → Step p (aclose p)

  pub data Reaches (policy : EgressPolicy) (global_mode : String) : Pool → Type 0 where
    starts : Reaches policy global_mode (new_pool policy global_mode)
    then_by : (p q : Pool) → Reaches policy global_mode p → Step p q → Reaches policy global_mode q

  register-Sound :
      (now : ℕ) (files : Files) (a : Account) (purpose : Option String) (c : ℕ) (p : Pool)
      → Sound p
      → Open p (some c)
      → Sound (register url_of hash_of global_proxies now files a purpose c p).0
  register-Sound now files a purpose c p s o =
      let grown = counted-Sound p p.known s in
      record {
        held = ((o.0, omega (arith, o.1)), grown.held);
        cached = grown.cached;
        waiting = grown.waiting;
        numbered = grown.numbered;
      }

  Sound-if :
      (b : Bool) (p q : Pool × Option ℕ) → Sound p.0 → Sound q.0 → Sound (if b then p else q).0
  Sound-if true p q h k = h
  Sound-if false p q h k = k

  registered-Sound :
      (now : ℕ) (files : Files) (a : Account) (purpose : Option String) (identity : Option Identity)
      (r : Pool × Option ℕ)
      → Good r
      → Sound (registered url_of hash_of global_proxies now files a purpose identity r).0
  registered-Sound now files a purpose identity (p, none) g = g.0
  registered-Sound now files a purpose identity (p, some c) g =
      Sound-if (is_some identity && not (same_exit identity (known_client c p).identity)) (p, none)
        _ g.0 (register-Sound now files a purpose c p g.0 g.1)

  derived-Sound :
      (now : ℕ) (files : Files) (a : Account) (o : Operation) (purpose : Option String) (b : Bool)
      (p : Pool) (n : ℕ)
      → find_first (λ x. x.number == n) p.operations ≡ some o
      → Sound p
      → Sound
          (if b
            then (p, none)
            else register url_of hash_of global_proxies now files a purpose o.client p).0
  derived-Sound now files a o purpose b p n e s =
      Sound-if b (p, none) _ s
        (register-Sound now files a purpose o.client p s (
          All-Among (λ x. (is_closed p x.client ≡ false) × (x.client < p.next)) p.operations o
            s.held (Among-find_first (λ x. x.number == n) p.operations o e)))

  derived_from-Sound :
      (now : ℕ) (files : Files) (a : Account) (purpose : Option String) (wanted : Wanted)
      (identity : Option Identity) (p : Pool) (n : ℕ) (o : Option Operation)
      → find_first (λ x. x.number == n) p.operations ≡ o
      → Sound p
      → (let r : Pool × Option ℕ = elim o [
        | none ↦ (p, none)
        | some x ↦
            if departs url_of hash_of global_proxies now files x a purpose wanted identity
            then (p, none)
            else register url_of hash_of global_proxies now files a x.purpose x.client p
      ] in
          Sound r.0)
  derived_from-Sound now files a purpose wanted identity p n none e s = s
  derived_from-Sound now files a purpose wanted identity p n (some o) e s =
      derived-Sound now files a o o.purpose _ p n e s

  close_if-Sound : (b : Bool) (p q : Pool) → Sound p → Sound q → Sound (if b then p else q)
  close_if-Sound true p q h k = h
  close_if-Sound false p q h k = k

  retire_listed-Sound :
      (now : ℕ) (files : Files) (meant : Bool) (r : Retirement) (p : Pool)
      → Sound p
      → Sound (retire_listed url_of hash_of global_proxies now files meant r p)
  unfolding retire_listed
  retire_listed-Sound now files meant absent p s = s
  retire_listed-Sound now files meant unreadable p s = s
  retire_listed-Sound now files meant (listed is) p s =
      close_if-Sound meant (close_all is p) p
        (record { held = s.held; cached = s.cached; waiting = s.waiting; numbered = s.numbered }) s

  Step-Sound : (p q : Pool) → Step p q → Sound p → Sound q
  unfolding acquire_operation derive_operation release_operation prune_idle coordinate_retirement
      close_account aclose
  Step-Sound p _ (gets now files a purpose wanted _) s =
      (get_client-Good url_of hash_of global_proxies now files a purpose wanted p s).0
  Step-Sound p _ (acquires now files a purpose wanted identity _) s =
      let l = (load_registry url_of files p).0 in
      let loaded = load-Sound url_of hash_of global_proxies now files p s in
      Sound-if _ (l, none) _ loaded
        (registered-Sound now files a purpose identity _
          (get_client-Good url_of hash_of global_proxies now files a purpose wanted l loaded))
  Step-Sound p _ (derives now files parent a purpose wanted identity _) s =
      let l = (load_registry url_of files p).0 in
      let loaded = load-Sound url_of hash_of global_proxies now files p s in
      Sound-if (not (load_registry url_of files p).1) (l, none) _ loaded
        (derived_from-Sound now files a purpose wanted identity l parent
          (find_first (λ x. x.number == parent) l.operations) refl loaded)
  Step-Sound p _ (releases number _) s =
      let rest = record p { operations = keep_if (λ o. not (o.number == number)) p.operations } in
      close_if-Sound (any (λ o. o.number == number) p.operations) (close_retired rest) p
        (close_retired-Sound rest (record {
          held = All-keep_if _ (λ o. not (o.number == number)) p.operations s.held;
          cached = s.cached;
          waiting = s.waiting;
          numbered = s.numbered;
        }))
        s
  Step-Sound p _ (prunes now files idle_timeout _) s =
      let loaded = load-Sound url_of hash_of global_proxies now files p s in
      close_if-Sound _ _ _ (close_retired-Sound _ (evict-Sound _ _ loaded)) loaded
  Step-Sound p _ (coordinates now files consumer meant _) s =
      let loaded = load-Sound url_of hash_of global_proxies now files p s in
      close_if-Sound (not consumer) p _ s (
        close_if-Sound _ _ _ loaded (
          retire_listed-Sound now files meant files.retirement _
            (close_retired-Sound _ (evict-Sound _ _ loaded))))
  Step-Sound p _ (closes_account id _) s =
      let shut = record p { closed_accounts = id ∷ p.closed_accounts } in
      let gone : Cached → Bool = λ k. str_eq k.account_id id in
      close_retired-Sound (evict gone shut) (
        evict-Sound gone shut
          (record { held = s.held; cached = s.cached; waiting = s.waiting; numbered = s.numbered }))
  Step-Sound p _ (closes_all _) s =
      close_retired-Sound (evict (λ k. true) p) (evict-Sound (λ k. true) p s)

  Reaches-Sound :
      (policy : EgressPolicy) (mode : String) (p : Pool) → Reaches policy mode p → Sound p
  Reaches-Sound policy mode _ starts = record {
    held = tt;
    cached = tt;
    waiting = tt;
    numbered = tt;
  }
  Reaches-Sound policy mode _ (then_by p q r step) =
      Step-Sound p q step (Reaches-Sound policy mode p r)

  -- Whichever of the methods that change the cache, the operations or the closed clients ran on a new
  -- pool, the coordination of retirements among them, and with whatever files: the client of every
  -- operation that is not released is open.
  pub Reaches-open :
      (policy : EgressPolicy) (mode : String) (p : Pool)
      → Reaches policy mode p
      → All (λ o. is_closed p o.client ≡ false) p.operations
  Reaches-open policy mode p r =
      All-map (λ o. (is_closed p o.client ≡ false) × (o.client < p.next))
        (λ o. is_closed p o.client ≡ false) (λ o h. h.0) p.operations
        (Reaches-Sound policy mode p r).held
