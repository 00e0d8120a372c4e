-- ===== src/ClientPool/Admission/Laws.antt =====
-- app/client_pool.py: what an exit that serves is like, and who may use a failed one.
use zcode2api.Prelude.{
  ℕ, ◌≡◌, refl, ap, String, true, false, ◌||◌, Option, none, some, [], ◌∷◌, truthy, is_none,
  is_empty, arith, eq_refl,
}
use zcode2api.Egress.{Url, Identity, same_identity, managed_port}
use zcode2api.ClientPool.{
  same_text, same_exit, BreakerKey, same_key, Breakers, breaker_at, set_breaker, Pool, Known,
  is_closed_identity,
}
use zcode2api.ClientPool.Circuit.{Breaker, half_open, begun}
use zcode2api.ClientPool.Registry.{Files, RegistryFile, load_registry}
use zcode2api.ClientPool.Registry.Kept.{read_already}
use zcode2api.ClientPool.Admission.{
  proxy_identity, breaker_key, proxy_eligible, is_proxy_quarantined, known_client, begin_request,
  admit,
}

same_text_refl : (a : Option String) → same_text a a ≡ true
same_text_refl none = refl
same_text_refl (some a) = eq_refl a

same_identity_refl : (i : Identity) → same_identity i i ≡ true
same_identity_refl i = ground (arith, eq_refl i.node_id)

same_exit_refl : (a : Option Identity) → same_exit a a ≡ true
same_exit_refl none = refl
same_exit_refl (some i) = same_identity_refl i

same_key_refl : (k : BreakerKey) → same_key k k ≡ true
same_key_refl k =
    ground (arith, eq_refl k.purpose, same_text_refl k.proxy, same_exit_refl k.identity)

pub breaker_at-set_breaker :
    (k : BreakerKey) (b : Breaker) (l : Breakers) → breaker_at k (set_breaker k b l) ≡ some b
unfolding breaker_at set_breaker
breaker_at-set_breaker k b [] = ground (arith, same_key_refl k)
breaker_at-set_breaker k b ((j, c) ∷ l) = ground (arith, breaker_at-set_breaker k b l)

module _ (url_of : String → Option Url) where
  -- What a request that was admitted as a probe left in the pool.
  pub record Probing (p q : Pool) (k : Known) : Type 0 where
    pub breaker : Breaker
    pub changed : q ≡ record p {
      breakers = set_breaker (breaker_key url_of p k.proxy k.purpose k.identity) breaker p.breakers;
    }
    pub half : breaker.state ≡ half_open
    pub taken : breaker.half_open_active ≡ true

  pub admit-Probing :
      (now : ℕ) (files : Files) (k : Known) (p q : Pool) (b : Option Breaker)
      → breaker_at (breaker_key url_of p k.proxy k.purpose k.identity) p.breakers ≡ b
      → admit url_of now files k p ≡ (q, some true)
      → Probing p q k
  unfolding admit begun
  admit-Probing now files k p q none e h = absurd (ground arith)
  admit-Probing now files k p q (some st) e h = record {
    breaker = record st { state = half_open; half_open_active = true };
    changed = ground arith;
    half = refl;
    taken = refl;
  }

  pub admit-quarantined :
      (later : ℕ) (files : Files) (k : Known) (r : Pool)
      → is_proxy_quarantined url_of later r k.proxy k.purpose k.identity ≡ true
      → (admit url_of later files k r).1 ≡ none
  unfolding admit
  admit-quarantined later files k r h = ground arith

  pub begin_request-none :
      (later : ℕ) (files : Files) (c : ℕ) (p : Pool)
      → truthy (known_client c p).proxy ≡ true
      → (admit url_of later files
          (known_client c (load_registry url_of files p).0)
          (load_registry url_of files p).0).1
        ≡ none
      → (begin_request url_of later files c p).1 ≡ none
  unfolding begin_request
  begin_request-none later files c p named h = ground arith

  pub begin_request-some :
      (now : ℕ) (files : Files) (c : ℕ) (pool p : Pool)
      → begin_request url_of now files c pool ≡ (p, some true)
      → (truthy (known_client c pool).proxy ≡ true)
        × ((load_registry url_of files pool).1 ≡ true)
        × (admit url_of now files
              (known_client c (load_registry url_of files pool).0)
              (load_registry url_of files pool).0
            ≡ (p, some true))
  unfolding begin_request
  begin_request-some now files c pool p h = ground arith

  pub known_client-of :
      (c : ℕ) (p q : Pool) → p.known ≡ q.known → known_client c p ≡ known_client c q
  known_client-of c p q h = ap (λ x. known_client c (record q { known = x })) h

  pub read_already-of :
      (r : Option RegistryFile) (p q : Pool)
      → p.slots ≡ q.slots
      → p.digest ≡ q.digest
      → read_already url_of r p ≡ read_already url_of r q
  read_already-of none p q s d = ap is_empty s
  read_already-of (some file) p q s d = ap (λ x. same_text x (some file.digest)) d

  -- The exit of a managed port serves only while its identity in the registry is not retired, and a
  -- request that is bound to an identity only while it is that one.
  pub proxy_eligible-current :
      (files : Files) (pool : Pool) (proxy : Option String) (identity purpose : _) (port : ℕ)
      → is_empty pool.slots ≡ false
      → managed_port url_of proxy ≡ some port
      → proxy_eligible url_of files pool proxy identity purpose ≡ true
      → (i : Identity) × (proxy_identity url_of pool proxy ≡ some i)
        × (is_closed_identity pool i ≡ false)
        × ((is_none identity || same_exit identity (some i)) ≡ true)
  unfolding proxy_eligible
  proxy_eligible-current files pool proxy identity purpose port s m h = ground (arith)
