-- ===== src/Egress/Policy.antt =====
-- app/egress_policy.py: the exit policy of each purpose and its validation.
-- `ipaddress.ip_address(host).is_loopback` is the parameter `is_loopback`, `none` where it raises a
-- ValueError. Each ValueError of the code is `none`.
pub mod Valid
use mathlib.Core.Path.{subst}
use Prim.Native.Nat.{Ordering}
use Prim.Native.String.{compare, ◌++◌}
use Prim.Native.Char.{Char, code}
use zcode2api.Prelude.{
  ℕ, ◌≤◌, ◌≡◌, refl, String, Bool, true, false, not, ◌&&◌, ◌||◌, Option, none, some, List, [], ◌∷◌,
  str_eq, leb, ◌==◌, if◌then◌else◌, ◌>>=◌, Among, all, find_first, length, is_some, member, truthy,
  opt_text, nonempty, strip, contains, chars, pos, All, arith,
}
use zcode2api.Prelude.Dict
use zcode2api.Prelude.Dict.{Dict}
use zcode2api.Prelude.Json
use zcode2api.Prelude.Json.{
  Json, Fields, end, field, str, int, obj, null, bool, float, arr, decimal, as_nat, as_str, as_obj,
}
use zcode2api.Egress.{Tier, Url, Identity, within, region_port_tiers}

pub record ClaimBinding : Type 0 where
  pub region : String
  pub port : ℕ
  pub node_id : String
  pub epoch : ℕ

abbrev pub binding_identity : ClaimBinding → Identity
binding_identity b = record { port = b.port; node_id = b.node_id; epoch = b.epoch }

-- `ClaimBinding.proxy`
abbrev pub binding_proxy : ClaimBinding → String
binding_proxy b = "http://127.0.0.1:" ++ decimal b.port

pub record EgressPolicy : Type 0 where
  pub chat_mode : String
  pub chat_proxy_url : String
  pub claim_mode : String
  pub claim_bindings : List ClaimBinding

-- `binding`
unfoldable pub binding : EgressPolicy → Option String → Option ClaimBinding
binding policy none = none
binding policy (some region) = find_first (λ b. str_eq b.region region) policy.claim_bindings

inherited : String → String → String
inherited mode global_mode = if str_eq mode "inherit" then global_mode else mode

-- `mode`: `none` for an unknown purpose.
unfoldable pub mode : EgressPolicy → Option String → String → Option String
unfolding inherited
mode policy none global_mode = some global_mode
mode policy (some purpose) global_mode =
    if str_eq purpose "chat"
    then some (inherited policy.chat_mode global_mode)
    else if str_eq purpose "claim"
    then some (inherited policy.claim_mode global_mode)
    else if str_eq purpose ""
    then none
    else none

abbrev keys : List String
keys = "chat_mode" ∷ "chat_proxy_url" ∷ "claim_mode" ∷ "claim_bindings" ∷ []

abbrev modes : List String
modes = "inherit" ∷ "direct" ∷ "proxy" ∷ []

abbrev only_keys : List String → Fields → Bool
only_keys ks end = true
only_keys ks (field k v fs) = member k ks && only_keys ks fs

-- `set(value) == keys`
abbrev has_exactly : List String → Fields → Bool
has_exactly ks fs = only_keys ks fs && all (λ k. Json.has k fs) ks

mode_of : Json → Option String
mode_of (str m) = if member m modes then some m else none
mode_of _ = none

abbrev is_hex : Char → Bool
is_hex c = (leb 48 (code c) && leb (code c) 57) || (leb 97 (code c) && leb (code c) 102)

-- `re.fullmatch(r"[0-9a-f]{64}", node_id)`
abbrev pub is_fingerprint : String → Bool
is_fingerprint s = all is_hex (chars s) && (length (chars s) == 64)

binding_of : String → Option Tier → Option ℕ → Option String → Option ℕ → Option ClaimBinding
binding_of region t port node_id epoch = do
  tier ← t
  p ← port
  n ← node_id
  e ← epoch
  if within tier p && is_fingerprint n && leb 1 e
      then some (record { region = region; port = p; node_id = n; epoch = e })
      else none

-- One round of the loop over the bindings.
parse_binding : String → Json → Option ClaimBinding
unfolding binding_of
parse_binding region (obj fs) =
    if has_exactly ("port" ∷ "node_id" ∷ "epoch" ∷ []) fs
    then binding_of region (Dict.get region region_port_tiers) (as_nat (Json.get "port" fs))
        (as_str (Json.get "node_id" fs)) (as_nat (Json.get "epoch" fs))
    else none
parse_binding region _ = none

-- `sorted(bindings.items())`: the keys of an object are different.
insert_binding : String → Json → List (String × Json) → List (String × Json)
insert_binding k v [] = (k, v) ∷ []
insert_binding k v ((j, w) ∷ l) =
    let rest = insert_binding k v l in
    elim (compare k j) [ Ordering.gt ↦ (j, w) ∷ rest | _ ↦ (k, v) ∷ (j, w) ∷ l ]

sorted : Fields → List (String × Json)
unfolding insert_binding
sorted end = []
sorted (field k v fs) = insert_binding k v (sorted fs)

parse_bindings : List (String × Json) → Option (List ClaimBinding)
unfolding parse_binding
parse_bindings [] = some []
parse_bindings ((region, v) ∷ l) =
    let rest = parse_bindings l in do b ← parse_binding region v; bs ← rest; some (b ∷ bs)

module _ (url_of : String → Option Url) (is_loopback : String → Option Bool) where
  abbrev bracketed : String → String
  bracketed host = if contains ":" host then "[" ++ (host ++ "]") else host

  local_url : Url → Option String
  local_url url = do
    loopback ← if str_eq url.hostname "localhost" then some true else is_loopback url.hostname
    port ← url.port
    if not (str_eq url.scheme "http")
          || not loopback
          || (port == 0)
          || is_some url.username
          || is_some url.password
          || not (member url.path ("" ∷ "/" ∷ []))
          || nonempty url.query
          || nonempty url.fragment
        then none
        else some ("http://" ++ (bracketed url.hostname ++ (":" ++ decimal port)))

  -- The URL of the chat proxy: blank stays blank, anything else is a local HTTP proxy.
  proxy_url : String → Option String
  unfolding local_url
  proxy_url raw =
      if nonempty (strip raw) then (do url ← url_of (strip raw); local_url url) else some ""

  policy_of : Option String → Option String → Option String → Option Fields → Option EgressPolicy
  unfolding proxy_url parse_bindings sorted
  policy_of chat claim url_text bindings = do
    chat_mode ← chat
    claim_mode ← claim
    raw ← url_text
    url ← proxy_url raw
    fs ← bindings
    parsed ←
        if str_eq chat_mode "proxy" && not (nonempty url) then none else parse_bindings (sorted fs)
    some (record {
      chat_mode = chat_mode;
      chat_proxy_url = url;
      claim_mode = claim_mode;
      claim_bindings = parsed;
    })

  unfoldable pub parse_policy : Json → Option EgressPolicy
  unfolding mode_of policy_of
  parse_policy (obj fs) =
      if has_exactly keys fs
      then policy_of (mode_of (Json.get "chat_mode" fs)) (mode_of (Json.get "claim_mode" fs))
          (as_str (Json.get "chat_proxy_url" fs)) (as_obj (Json.get "claim_bindings" fs))
      else none
  parse_policy _ = none
