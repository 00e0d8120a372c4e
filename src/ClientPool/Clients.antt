-- ===== src/ClientPool/Clients.antt =====
-- app/client_pool.py: the clients and the operations that hold them. Each method holds the pool's lock,
-- so it is one step. A client is a number; `closed` holds those whose connections were closed. The
-- account of a call is an `Account`, not only its identifier.
pub mod Held
pub mod Opened
pub mod Reach
use zcode2api.Prelude.{
  ℕ, suc, ◌+◌, ◌-◌, String, Bool, true, false, not, ◌&&◌, ◌||◌, Option, none, some, List, [], ◌∷◌,
  ◌++◌, str_eq, ◌==◌, ltb, if◌then◌else◌, any, keep_if, find_first, map, member, truthy, nonempty,
  opt_text, is_some, is_none, is_empty,
}
use zcode2api.Prelude.Dict
use zcode2api.Account.{Account}
use zcode2api.Egress.{Url, Identity}
use zcode2api.ClientPool.{close_all, Pool, Known, Cached, Operation, same_text, same_exit}
use zcode2api.ClientPool.Registry.{Files, Retirement, absent, unreadable, listed, load_registry}
use zcode2api.ClientPool.Admission.{proxy_eligible, proxy_identity, known_client}
use zcode2api.ClientPool.Route.{
  Exit, exit, no_proxy, region_offline, unknown_purpose, effective_mode, resolve_proxy,
}

-- The argument `proxy`: left out, or given.
pub data Wanted : Type 0 where
  unresolved : Wanted
  given : Option String → Wanted

abbrev wanted_exit : Wanted → Option String
wanted_exit unresolved = none
wanted_exit (given p) = p

abbrev pub is_closed : Pool → ℕ → Bool
is_closed pool c = any (λ n. n == c) pool.closed

abbrev pub is_held : List Operation → ℕ → Bool
is_held ops c = any (λ o. o.client == c) ops

-- `(account_id, purpose) == key[:2]`
abbrev pub belongs : String → Option String → Cached → Bool
belongs account_id purpose k = str_eq k.account_id account_id && same_text k.purpose purpose

abbrev touch : ℕ → ℕ → List Cached → List Cached
touch now c [] = []
touch now c (k ∷ ks) =
    let rest = touch now c ks in
    if k.client == c then record k { last_active = now } ∷ rest else k ∷ rest

abbrev pub touched : ℕ → ℕ → Pool → Pool
touched now c pool = record pool { clients = touch now c pool.clients }

policy_inherits : Pool → Option String → Bool
policy_inherits pool none = true
policy_inherits pool (some purpose) =
    if str_eq purpose "chat"
    then str_eq pool.policy.chat_mode "inherit"
    else str_eq pool.policy.claim_mode "inherit"

-- Clients that lose their place in the cache wait in `retired`.
abbrev pub evict : (Cached → Bool) → Pool → Pool
evict gone pool = record pool {
  clients = keep_if (λ k. not (gone k)) pool.clients;
  retired = map (λ k. k.client) (keep_if gone pool.clients) ++ pool.retired;
}

abbrev pub added : ℕ → Account → Option String → Option String → Option Identity → Pool → Pool
added now a purpose actual identity pool = record pool {
  clients =
      pool.clients
      ++ (record {
        account_id = a.id;
        purpose = purpose;
        proxy = actual;
        identity = identity;
        client = pool.next;
        last_active = now;
      })
        ∷ [];
  known =
      (record { client = pool.next; proxy = actual; identity = identity; purpose = purpose })
      ∷ pool.known;
  next = suc pool.next;
}

-- `_close_retired_locked`
unfoldable pub close_retired : Pool → Pool
close_retired pool =
    let waits : ℕ → Bool = λ c. is_held pool.operations c in
    let gone = keep_if (λ c. not (waits c)) pool.retired in
    record pool {
      retired = keep_if waits pool.retired;
      closed = gone ++ pool.closed;
      known = keep_if (λ k. not (any (λ n. n == k.client) gone)) pool.known;
    }

module _ (url_of : String → Option Url) (hash_of : String → ℕ) (global_proxies : List String)
    (now : ℕ) (files : Files) where
  abbrev resolved : Pool → Account → Option String → Exit
  resolved pool a purpose = resolve_proxy url_of hash_of now files pool global_proxies a purpose

  matches : Pool → Account → Bool → Option String → Bool
  matches pool a direct actual =
      if direct
      then is_none actual
      else if truthy a.proxy
      then same_text actual a.proxy
      else not (truthy a.assigned_region)
        || member (opt_text actual)
            (elim (Dict.get (opt_text a.assigned_region) pool.regions) [ none ↦ [] | some l ↦ l ])

  reusable : Pool → Account → Bool → Option String → Cached → Bool
  unfolding matches
  reusable pool a direct purpose k =
      belongs a.id purpose k
      && not (is_closed pool k.client)
      && matches pool a direct k.proxy
      && proxy_eligible url_of files pool k.proxy k.identity purpose

  -- The last part: the client of the key, or a new one in the place of the account's old ones.
  provide : Pool → Account → Option String → Option String → Option Identity → Pool × Option ℕ
  provide pool a purpose actual identity =
      elim (find_first
        (λ k.
          belongs a.id purpose k
          && same_text k.proxy actual
          && same_exit k.identity identity
          && not (is_closed pool k.client))
        pool.clients) [
          | some k ↦ (touched now k.client pool, some k.client)
          | none ↦ (
            added now a purpose actual identity (evict (belongs a.id purpose) pool),
            some pool.next,
          )
        ]

  connect : Pool → Account → Bool → Option String → Option String → Pool × Option ℕ
  unfolding provide
  connect pool a direct purpose actual =
      if not (proxy_eligible url_of files pool actual (proxy_identity url_of pool actual) purpose)
        || (not direct
            && not (truthy actual)
            && (truthy a.assigned_region || not (is_empty pool.slots)))
      then (pool, none)
      else provide pool a purpose actual (proxy_identity url_of pool actual)

  connect_to : Pool → Account → Bool → Option String → Exit → Pool × Option ℕ
  unfolding connect
  connect_to pool a direct purpose (exit p) = connect pool a direct purpose (some p)
  connect_to pool a direct purpose no_proxy = connect pool a direct purpose none
  connect_to pool a direct purpose _ = (pool, none)

  -- The exit: none in direct mode, the resolved one, or the given one, which may not differ from a fixed
  -- exit of the purpose `claim`.
  given_exit : Option String → Exit
  given_exit none = no_proxy
  given_exit (some p) = exit p

  exit_for : Pool → Account → Bool → Option String → Wanted → Exit
  unfolding given_exit
  exit_for pool a direct purpose wanted =
      if str_eq (opt_text purpose) "claim" && str_eq pool.policy.claim_mode "proxy"
      then elim wanted [
        | unresolved ↦ resolved pool a purpose
        | given p ↦ elim (resolved pool a purpose) [
          | exit q ↦ if same_text p (some q) then exit q else region_offline
          | no_proxy ↦ if is_none p then no_proxy else region_offline
          | region_offline ↦ region_offline
          | unknown_purpose ↦ unknown_purpose
        ]
      ]
      else if direct
      then no_proxy
      else elim wanted [ unresolved ↦ resolved pool a purpose | given p ↦ given_exit p ]

  cached_for : Pool → Account → Option String → Bool → Wanted → Option Cached
  unfolding reusable policy_inherits
  cached_for pool a purpose direct (given p) = none
  cached_for pool a purpose direct unresolved =
      if policy_inherits pool purpose
      then find_first (reusable pool a direct purpose) pool.clients
      else none

  open_client : Pool → Account → Option String → Wanted → Bool → Pool × Option ℕ
  unfolding connect_to exit_for cached_for
  open_client pool a purpose wanted direct = elim (cached_for pool a purpose direct wanted) [
    | some k ↦ (touched now k.client pool, some k.client)
    | none ↦ connect_to pool a direct purpose (exit_for pool a direct purpose wanted)
  ]

  -- `_get_client_locked`: `none` where it raises.
  unfoldable pub get_client : Account → Option String → Wanted → Pool → Pool × Option ℕ
  unfolding open_client effective_mode
  get_client a purpose wanted pool =
      let (p, read) = load_registry url_of files pool in
      if not read || member a.id p.closed_accounts
      then (p, none)
      else elim (effective_mode p purpose) [
        | none ↦ (p, none)
        | some m ↦ open_client p a purpose wanted (str_eq m "direct")
      ]

  abbrev register : Account → Option String → ℕ → Pool → Pool × Option ℕ
  register a purpose c pool = (
    record pool {
      operations =
          (record {
            number = pool.next;
            client = c;
            account_id = a.id;
            proxy = (known_client c pool).proxy;
            identity = (known_client c pool).identity;
            purpose = purpose;
          })
          ∷ pool.operations;
      next = suc pool.next;
    },
    some pool.next,
  )

  abbrev registered : Account → Option String → Option Identity → Pool × Option ℕ → Pool × Option ℕ
  registered a purpose identity (p, none) = (p, none)
  registered a purpose identity (p, some c) =
      if is_some identity && not (same_exit identity (known_client c p).identity)
      then (p, none)
      else register a purpose c p

  -- `acquire_operation` without a parent: the operation's number, or `none` where it raises.
  unfoldable pub acquire_operation :
      Account → Option String → Wanted → Option Identity → Pool → Pool × Option ℕ
  acquire_operation a purpose wanted identity pool =
      let (p, read) = load_registry url_of files pool in
      if not read
        || (is_some identity
            && not (proxy_eligible url_of files p (wanted_exit wanted) identity purpose))
      then (p, none)
      else registered a purpose identity (get_client a purpose wanted p)

  abbrev departs : Operation → Account → Option String → Wanted → Option Identity → Bool
  departs parent a purpose wanted identity =
      elim wanted [ unresolved ↦ false | given p ↦ not (same_text p parent.proxy) ]
      || (is_some identity && not (same_exit identity parent.identity))
      || (is_some purpose && not (same_text purpose parent.purpose))
      || not (str_eq a.id parent.account_id)

  -- `acquire_operation` with a parent: the parent's client, if the parent is not released.
  unfoldable pub derive_operation :
      ℕ → Account → Option String → Wanted → Option Identity → Pool → Pool × Option ℕ
  derive_operation parent a purpose wanted identity pool =
      let (p, read) = load_registry url_of files pool in
      if not read then (p, none) else elim (find_first (λ o. o.number == parent) p.operations) [
        | none ↦ (p, none)
        | some o ↦
            if departs o a purpose wanted identity
            then (p, none)
            else register a o.purpose o.client p
      ]

  -- `prune_idle`; where the registry cannot be read it raises after what was read.
  unfoldable pub prune_idle : ℕ → Pool → Pool
  unfolding close_retired
  prune_idle idle_timeout pool =
      let (p, read) = load_registry url_of files pool in
      let gone : Cached → Bool = λ k.
        not (
          proxy_eligible url_of files p (known_client k.client p).proxy
            (known_client k.client p).identity (known_client k.client p).purpose)
        || (ltb idle_timeout (now - k.last_active) && not (is_held p.operations k.client)) in
      if read then close_retired (evict gone p) else p

  -- The end of `coordinate_retirement`: the identities of a request that is meant for this process.
  retire_listed : Bool → Retirement → Pool → Pool
  retire_listed meant (listed is) pool = if meant then close_all is pool else pool
  retire_listed meant _ pool = pool

  -- `coordinate_retirement`, without the tokens of captcha.py and the files that it writes. `consumer`
  -- is whether the process has a consumer, and `meant` whether the request names it and its generation.
  unfoldable pub coordinate_retirement : (consumer meant : Bool) → Pool → Pool
  unfolding close_retired retire_listed
  coordinate_retirement consumer meant pool =
      let (p, read) = load_registry url_of files pool in
      let gone : Cached → Bool = λ k. not (
        proxy_eligible url_of files p (known_client k.client p).proxy
          (known_client k.client p).identity (known_client k.client p).purpose) in
      if not consumer
      then pool
      else if not read
      then p
      else retire_listed meant files.retirement (close_retired (evict gone p))

-- `release_operation`
unfoldable pub release_operation : ℕ → Pool → Pool
unfolding close_retired
release_operation number pool =
    if any (λ o. o.number == number) pool.operations
    then close_retired
        (record pool { operations = keep_if (λ o. not (o.number == number)) pool.operations })
    else pool

-- `close_account`
unfoldable pub close_account : String → Pool → Pool
unfolding close_retired
close_account id pool = close_retired (
    evict (λ k. str_eq k.account_id id)
      (record pool { closed_accounts = id ∷ pool.closed_accounts }))

-- `aclose`
unfoldable pub aclose : Pool → Pool
unfolding close_retired
aclose pool = close_retired (evict (λ k. true) pool)
