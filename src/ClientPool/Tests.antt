-- ===== src/ClientPool/Tests.antt =====
-- Runs of the client pool, and its theorems at concrete pools.
use zcode2api.Prelude.{
  ℕ, ◌≡◌, ◌⊎◌, refl, String, true, false, Option, none, some, [], ◌∷◌, All, Among, strip, str_eq,
  if◌then◌else◌,
}
use zcode2api.Prelude.Dict
use zcode2api.Prelude.Json.{decimal}
use zcode2api.Account.{Account, active, jwt}
use zcode2api.Egress.{Url, Identity, managed_port, slot_identity}
use zcode2api.Egress.Policy.{EgressPolicy, mode, binding}
use zcode2api.ClientPool.{Pool, breaker_at, set_breaker}
use zcode2api.ClientPool.Circuit.{
  Breaker, opened, half_open, recorded, quarantined, begun, ended, new_breaker,
}
use zcode2api.ClientPool.Circuit.Probe.{
  Traffic, idle, starts, plain_ends, Reaches, initially, then_at, Reaches-quarantined,
}
use zcode2api.ClientPool.Registry.{Files, absent, load_registry}
use zcode2api.ClientPool.Admission.{
  proxy_eligible, is_proxy_quarantined, begin_request, end_request, claim_binding_eligible,
}
use zcode2api.ClientPool.Admission.Exclusive.{ends, nothing_more, begin_request_exclusive}
use zcode2api.ClientPool.Route.{
  serves, binding_index, bound_port, first_in_ring, resolve_proxy, effective_mode,
}
use zcode2api.ClientPool.Route.Ring.{First, bound_port-First, resolve_proxy-region}
use zcode2api.ClientPool.Clients.{
  unresolved, get_client, acquire_operation, close_account, close_retired, release_operation,
  is_closed,
}
use zcode2api.ClientPool.Clients.Reach.{
  acquires, closes_account, starts as fresh, then_by, new_pool, Reaches-open,
}

url_of : String → Option Url
url_of s = some (record {
  scheme = "http";
  hostname = "127.0.0.1";
  port = some (if str_eq s "http://127.0.0.1:21101" then 21101 else 21102);
  username = none;
  password = none;
  path = "";
  query = "";
  fragment = "";
})

hash_of : String → ℕ
hash_of s = 3

program : Unit {0}
unfolding url_of hash_of recorded quarantined begun ended load_registry proxy_eligible
    is_proxy_quarantined begin_request end_request claim_binding_eligible managed_port slot_identity
    breaker_at set_breaker decimal Dict.get mode binding binding_index bound_port first_in_ring
    resolve_proxy effective_mode strip get_client acquire_operation close_account close_retired
    release_operation
program = tt

abbrev failing : Breaker
failing = record new_breaker { fails = 2 }

abbrev broken : Breaker
broken = record { state = opened; fails = 3; quarantine_until = 700; half_open_active = false }

third_failure : recorded 600 100 false false failing ≡ broken
unfolding program
third_failure = refl

abbrev one_plain : Traffic
one_plain = record { breaker = none; plain = 1; probes = 0 }

-- One request that the firewall blocks.
abbrev blocked : Traffic
blocked = record {
  breaker =
      some (record { state = opened; fails = 1; quarantine_until = 700; half_open_active = false });
  plain = 1;
  probes = 0;
}

two_plain : Reaches 600 (record one_plain { plain = 2 })
unfolding program
two_plain =
    then_at 90 one_plain (record one_plain { plain = 2 })
      (then_at 80 idle one_plain initially (starts idle refl)) (starts one_plain refl)

reaches_blocked : Reaches 600 blocked
unfolding program
reaches_blocked =
    then_at 100 (record one_plain { plain = 2 }) blocked two_plain
      (plain_ends (record one_plain { plain = 2 }) 1 (some false) true refl)

Reaches-quarantined_example :
    (blocked.probes ≡ 0) ⊎ ((blocked.probes ≡ 1) × (quarantined 800 blocked.breaker ≡ true))
Reaches-quarantined_example = Reaches-quarantined 600 800 blocked reaches_blocked

abbrev inherits : EgressPolicy
inherits = record {
  chat_mode = "inherit";
  chat_proxy_url = "";
  claim_mode = "inherit";
  claim_bindings = [];
}

abbrev port_one : String
port_one = "http://127.0.0.1:21101"

abbrev port_two : String
port_two = "http://127.0.0.1:21102"

abbrev node_one : Identity
node_one = record { port = 21101; node_id = "n1"; epoch = 1 }

abbrev pool : Pool
pool = record (new_pool inherits "proxy") {
  regions = ("HK", port_one ∷ port_two ∷ []) ∷ [];
  slots =
      ("21101", record { region = "HK"; node_id = some "n1"; epoch = 1; admission = "active" })
      ∷ ("21102", record { region = "HK"; node_id = some "n2"; epoch = 1; admission = "active" })
      ∷ [];
  digest = some "d";
  known =
      (record {
        client = 0;
        proxy = some port_one;
        identity = some node_one;
        purpose = some "chat";
      })
      ∷ [];
  breakers =
      (record { purpose = "chat"; proxy = some port_one; identity = some node_one }, broken) ∷ [];
}

abbrev files : Files
files = record {
  registry = some (record { digest = "d"; content = none });
  retirement = absent;
  lifecycle = none;
}

abbrev probing : Pool
probing = record pool {
  breakers =
      (
        record { purpose = "chat"; proxy = some port_one; identity = some node_one },
        record broken { state = half_open; half_open_active = true },
      )
      ∷ [];
}

-- Meanwhile a request that is no probe ends well.
abbrev settled_one : Pool
settled_one = end_request url_of 600 850 files 0 false (some true) false probing

begin_request_exclusive_example : (begin_request url_of 900 files 0 settled_one).1 ≡ none
unfolding program
begin_request_exclusive_example =
    begin_request_exclusive url_of 800 900 files 0 pool probing settled_one refl
      (ends 600 850 0 (some true) false probing settled_one (nothing_more settled_one))

-- The account's place is the second exit; the first is in quarantine.
bound_port-First_example :
    First url_of hash_of 650 files pool (some "chat") (port_one ∷ port_two ∷ []) 1 2 port_two
unfolding program
bound_port-First_example =
    bound_port-First url_of hash_of 650 files pool (some "chat") "a-1" (port_one ∷ port_two ∷ [])
      port_two refl

abbrev account : Account
account = record {
  id = "a-1";
  name = "a";
  provider = "zai";
  mode = jwt;
  jwt_token = some "h.p.s";
  key = none;
  enabled = true;
  status = active;
  quota = [];
  plans = [];
  plan_slots = [];
  claimable_plans = [];
  use_count = 0;
  fail_count = 0;
  risk_strikes = 0;
  recent_results = [];
  last_used_at = none;
  last_checked_at = none;
  cooling_until = none;
  claim_blocked_until = none;
  last_error = none;
  created_at = 100;
  install_id = none;
  installed_at = none;
  proxy = none;
  assigned_region = some "HK";
}

resolve_proxy-region_example :
    Among port_two (port_one ∷ port_two ∷ [])
    × (serves url_of hash_of 650 files pool (some "chat") port_two ≡ true)
unfolding program
resolve_proxy-region_example =
    resolve_proxy-region url_of hash_of 650 files pool (some "chat") [] account "HK"
      (port_one ∷ port_two ∷ []) port_two refl refl refl refl refl refl

abbrev unmanaged : Files
unmanaged = record { registry = none; retirement = absent; lifecycle = none }

-- A pool with one operation in flight, whose account is closed meanwhile.
abbrev acquired : Pool
acquired =
    (acquire_operation url_of hash_of [] 650 unmanaged (record account { assigned_region = none })
      (some "chat") unresolved none (new_pool inherits "proxy")).0

one_in_flight : (close_account "a-1" acquired).retired ≡ 0 ∷ []
unfolding program
one_in_flight = refl

Reaches-open_example :
    All
      (λ o. is_closed (close_account "a-1" acquired) o.client ≡ false)
      (close_account "a-1" acquired).operations
Reaches-open_example =
    Reaches-open url_of hash_of [] inherits "proxy" (close_account "a-1" acquired) (
      then_by acquired (close_account "a-1" acquired)
        (then_by (new_pool inherits "proxy") acquired fresh (
          acquires 650 unmanaged (record account { assigned_region = none }) (some "chat")
            unresolved none (new_pool inherits "proxy")))
        (closes_account "a-1" acquired))
