-- ===== src/Egress/Policy/Valid.antt =====
-- app/egress_policy.py: what a policy that passed the validation is like.
use Prim.Native.String.{◌++◌}
use mathlib.Core.Path.{subst}
use zcode2api.Prelude.{
  ℕ, ◌≤◌, ◌≡◌, ◌≢◌, ◌⊎◌, inl, inr, refl, sym, ◌∙◌, String, Bool, true, false, not, ◌&&◌, Option,
  none, some, List, [], ◌∷◌, str_eq, member, nonempty, All, arith, eq_iff, Bool-cases, is_some,
  strip, ◌>>=◌, ◌==◌, if◌then◌else◌,
}
use zcode2api.Prelude.Dict
use zcode2api.Prelude.Json
use zcode2api.Prelude.Json.{
  Json, Fields, str, int, obj, null, bool, float, arr, as_nat, as_str, as_obj, decimal,
}
use zcode2api.Egress.{Tier, Url, region_port_tiers}
use zcode2api.Egress.Policy.{
  ClaimBinding, EgressPolicy, modes, mode_of, is_fingerprint, binding_of, parse_binding,
  parse_bindings, sorted, policy_of, parse_policy, bracketed, local_url, proxy_url,
}

-- A binding that stays in its region's ports.
pub record BindingValid (b : ClaimBinding) : Type 0 where
  pub tier : Tier
  pub known : Dict.get b.region region_port_tiers ≡ some tier
  pub in_tier : (tier.low ≤ b.port) × (b.port ≤ tier.high)
  pub fingerprint : is_fingerprint b.node_id ≡ true
  pub issued : 1 ≤ b.epoch

binding_of-Valid :
    (t : Option Tier) (b : ClaimBinding) (region : String) (p : Option ℕ) (n : Option String)
    (e : Option ℕ)
    → Dict.get region region_port_tiers ≡ t
    → binding_of region t p n e ≡ some b
    → BindingValid b
unfolding binding_of
binding_of-Valid none b region p n e known h = absurd (ground arith)
binding_of-Valid (some t) b region none n e known h = absurd (ground arith)
binding_of-Valid (some t) b region (some p) none e known h = absurd (ground arith)
binding_of-Valid (some t) b region (some p) (some n) none known h = absurd (ground arith)
binding_of-Valid (some t) b region (some p) (some n) (some e) known h =
    let same : (region ≡ b.region) × (n ≡ b.node_id) = ground arith in
    record {
      tier = t;
      known = subst (λ r. Dict.get r region_port_tiers ≡ some t) same.0 known;
      in_tier = ground arith;
      fingerprint = subst (λ x. is_fingerprint x ≡ true) same.1 (ground arith);
      issued = ground arith;
    }

parse_binding-Valid :
    (region : String) (v : Json) (b : ClaimBinding)
    → parse_binding region v ≡ some b
    → BindingValid b
unfolding parse_binding
parse_binding-Valid region (obj fs) b h =
    binding_of-Valid (Dict.get region region_port_tiers) b region (as_nat (Json.get "port" fs))
      (as_str (Json.get "node_id" fs)) (as_nat (Json.get "epoch" fs)) refl (ground arith)
parse_binding-Valid region null b h = absurd (ground arith)
parse_binding-Valid region (bool x) b h = absurd (ground arith)
parse_binding-Valid region (int x) b h = absurd (ground arith)
parse_binding-Valid region (float x) b h = absurd (ground arith)
parse_binding-Valid region (str x) b h = absurd (ground arith)
parse_binding-Valid region (arr x) b h = absurd (ground arith)

parse_bindings-Valid :
    (l : List (String × Json)) (bs : List ClaimBinding)
    → parse_bindings l ≡ some bs
    → All BindingValid bs
unfolding parse_bindings
parse_bindings-Valid [] [] h = tt
parse_bindings-Valid [] (b ∷ bs) h = absurd (ground arith)
parse_bindings-Valid ((region, v) ∷ l) [] h = absurd (ground arith)
parse_bindings-Valid ((region, v) ∷ l) (b ∷ bs) h =
    (parse_binding-Valid region v b (ground arith), parse_bindings-Valid l bs (ground arith))

bind-some :
    (A B : Type 0) (o : Option A) (f : A → Option B) (t : B)
    → (o >>= f) ≡ some t
    → (x : A) × (o ≡ some x) × (f x ≡ some t)
bind-some A B none f t h = absurd (ground arith)
bind-some A B (some x) f t h = (x, refl, h)

local_host :
    (host : String) (l : Option Bool) (b : Bool)
    → (if str_eq host "localhost" then some true else l) ≡ some b
    → b ≡ true
    → (host ≡ "localhost") ⊎ (l ≡ some true)
local_host host l b h e = elim (Bool-cases (str_eq host "localhost")) [
  | inl e1 ↦ inl ((eq_iff host "localhost").0 e1)
  | inr e1 ↦ inr (ground arith)
]

none_of : (o : Option String) → is_some o ≡ false → o ≡ none
none_of none h = refl
none_of (some x) h = absurd (cc)

blank_of : (s : String) → nonempty s ≡ false → s ≡ ""
blank_of String.[] h = refl
blank_of (String.◌∷◌ c s) h = absurd (cc)

pos_of : (n : ℕ) → (n == 0) ≡ false → 1 ≤ n
pos_of n h = ground arith

root_path : (s : String) → member s ("" ∷ "/" ∷ []) ≡ true → (s ≡ "") ⊎ (s ≡ "/")
root_path s h = elim (Bool-cases (str_eq s "")) [
  | inl e ↦ inl ((eq_iff s "").0 e)
  | inr n ↦ inr ((eq_iff s "/").0 (ground arith))
]

nonempty_of : (s : String) → nonempty s ≡ true → s ≢ ""
nonempty_of String.[] h = absurd (cc)
nonempty_of (String.◌∷◌ c s) h = λ e. absurd (cc)

mode_of-member : (j : Json) (m : String) → mode_of j ≡ some m → member m modes ≡ true
unfolding mode_of
mode_of-member (str s) m h =
    let e : (member s modes ≡ true) × (s ≡ m) = ground arith in
    subst (λ x. member x modes ≡ true) e.1 e.0
mode_of-member null m h = absurd (ground arith)
mode_of-member (bool x) m h = absurd (ground arith)
mode_of-member (int x) m h = absurd (ground arith)
mode_of-member (float x) m h = absurd (ground arith)
mode_of-member (arr x) m h = absurd (ground arith)
mode_of-member (obj x) m h = absurd (ground arith)

module _ (url_of : String → Option Url) (is_loopback : String → Option Bool) where
  -- The text is written anew from a URL that was read: an HTTP proxy on this machine, with a port and
  -- without a user, a path, a query or a fragment.
  pub record IsLocal (text : String) : Type 0 where
    pub raw : String
    pub url : Url
    pub port : ℕ
    pub was_read : url_of raw ≡ some url
    pub http : url.scheme ≡ "http"
    pub on_this_machine : (url.hostname ≡ "localhost") ⊎ (is_loopback url.hostname ≡ some true)
    pub has_port : (url.port ≡ some port) × (1 ≤ port)
    pub no_user : (url.username ≡ none) × (url.password ≡ none)
    pub no_path : (url.path ≡ "") ⊎ (url.path ≡ "/")
    pub no_query : (url.query ≡ "") × (url.fragment ≡ "")
    pub rewritten :
        text ≡ "http://" ++ (bracketed url_of is_loopback url.hostname ++ (":" ++ decimal port))

  -- A policy that may be put to use: a proxy URL that is not blank is local, and proxy mode has one.
  pub record PolicyValid (policy : EgressPolicy) : Type 0 where
    pub chat : member policy.chat_mode modes ≡ true
    pub claim : member policy.claim_mode modes ≡ true
    pub local_proxy : (policy.chat_proxy_url ≡ "") ⊎ IsLocal policy.chat_proxy_url
    pub has_proxy : (policy.chat_mode ≢ "proxy") ⊎ (policy.chat_proxy_url ≢ "")
    pub bindings : All BindingValid policy.claim_bindings

  local_url-found :
      (raw text : String) (u : Url)
      → url_of raw ≡ some u
      → local_url url_of is_loopback u ≡ some text
      → IsLocal text
  unfolding local_url
  local_url-found raw text u e h =
      let (loopback, found, g) =
        bind-some Bool String
          (if str_eq u.hostname "localhost" then some true else is_loopback u.hostname) _ text h in
      let (port, got, k) = bind-some ℕ String u.port _ text g in
      let kept : ((str_eq u.scheme "http" ≡ true) × (loopback ≡ true) × ((port == 0) ≡ false))
          × ((is_some u.username ≡ false)
              × (is_some u.password ≡ false)
              × (member u.path ("" ∷ "/" ∷ []) ≡ true))
          × ((nonempty u.query ≡ false) × (nonempty u.fragment ≡ false))
          × ("http://" ++ (bracketed url_of is_loopback u.hostname ++ (":" ++ decimal port))
              ≡ text) =
        ground arith in
      record {
        raw = raw;
        url = u;
        port = port;
        was_read = e;
        http = (eq_iff u.scheme "http").0 kept.0.0;
        on_this_machine = local_host u.hostname (is_loopback u.hostname) loopback found kept.0.1;
        has_port = (got, pos_of port kept.0.2);
        no_user = (none_of u.username kept.1.0, none_of u.password kept.1.1);
        no_path = root_path u.path kept.1.2;
        no_query = (blank_of u.query kept.2.0, blank_of u.fragment kept.2.1);
        rewritten = sym kept.3;
      }

  proxy_url-found :
      (raw text : String)
      → proxy_url url_of is_loopback raw ≡ some text
      → (text ≡ "") ⊎ IsLocal text
  unfolding proxy_url
  proxy_url-found raw text h = elim (Bool-cases (nonempty (strip raw))) [
    | inl full ↦
        let (u, read, g) =
          bind-some Url String (url_of (strip raw)) (local_url url_of is_loopback) text
            (ground arith) in
        inr (local_url-found (strip raw) text u read g)
    | inr blank ↦ inl (ground arith)
  ]

  policy_of-found :
      (chat claim raw : Option String) (bs : Option Fields) (policy : EgressPolicy)
      → policy_of url_of is_loopback chat claim raw bs ≡ some policy
      → (chat ≡ some policy.chat_mode)
        × (claim ≡ some policy.claim_mode)
        × ((policy.chat_mode ≢ "proxy") ⊎ (policy.chat_proxy_url ≢ ""))
        × ((policy.chat_proxy_url ≡ "") ⊎ IsLocal policy.chat_proxy_url)
        × (fs : Fields) × (parse_bindings (sorted fs) ≡ some policy.claim_bindings)
  unfolding policy_of
  policy_of-found none claim raw bs policy h = absurd (ground arith)
  policy_of-found (some chat) none raw bs policy h = absurd (ground arith)
  policy_of-found (some chat) (some claim) none bs policy h = absurd (ground arith)
  policy_of-found (some chat) (some claim) (some raw) none policy h = absurd (ground arith)
  policy_of-found (some chat) (some claim) (some raw) (some fs) policy h =
      let (url, got, g) =
        bind-some String EgressPolicy (proxy_url url_of is_loopback raw) _ policy h in
      let same : (chat ≡ policy.chat_mode)
          × (url ≡ policy.chat_proxy_url)
          × ((str_eq chat "proxy" && not (nonempty url)) ≡ false) =
        ground arith in
      let place : (url ≡ "") ⊎ IsLocal url = proxy_url-found raw url got in
      (
        ground arith,
        ground arith,
        elim (Bool-cases (str_eq chat "proxy")) [
          | inl e ↦ inr (subst (λ x. x ≢ "") same.1 (nonempty_of url (ground (arith, e))))
          | inr e ↦ inl (λ q. absurd (ground (arith, (eq_iff chat "proxy").1 (same.0 ∙ q), e)))
        ],
        subst (λ x. (x ≡ "") ⊎ IsLocal x) same.1 place,
        fs,
        ground arith,
      )

  -- A policy that `parse_policy` accepts names known modes; its proxy URL is blank, which it is not where
  -- the chat mode is `proxy`, or written from a URL that was read, of an HTTP proxy on this machine with a
  -- port and without a user, a path, a query or a fragment; and it binds only known regions, each to a port
  -- of the region's own tier, a node of sixty-four hexadecimal digits and a positive epoch.
  pub parse_policy-Valid :
      (v : Json) (policy : EgressPolicy)
      → parse_policy url_of is_loopback v ≡ some policy
      → PolicyValid policy
  unfolding parse_policy
  parse_policy-Valid (obj fs) policy h =
      let found =
        policy_of-found (mode_of (Json.get "chat_mode" fs)) (mode_of (Json.get "claim_mode" fs))
          (as_str (Json.get "chat_proxy_url" fs)) (as_obj (Json.get "claim_bindings" fs)) policy
          (ground arith) in
      let (chat, claim, has_proxy, local_proxy, bs, parsed) = found in
      record {
        chat = mode_of-member (Json.get "chat_mode" fs) policy.chat_mode chat;
        claim = mode_of-member (Json.get "claim_mode" fs) policy.claim_mode claim;
        local_proxy = local_proxy;
        has_proxy = has_proxy;
        bindings = parse_bindings-Valid (sorted bs) policy.claim_bindings parsed;
      }
  parse_policy-Valid null policy h = absurd (ground arith)
  parse_policy-Valid (bool x) policy h = absurd (ground arith)
  parse_policy-Valid (int x) policy h = absurd (ground arith)
  parse_policy-Valid (float x) policy h = absurd (ground arith)
  parse_policy-Valid (str x) policy h = absurd (ground arith)
  parse_policy-Valid (arr x) policy h = absurd (ground arith)
