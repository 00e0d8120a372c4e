-- ===== src/ClientPool/Admission/Exclusive.antt =====
-- app/client_pool.py: while a probe is in flight, the client of its exit gets no other request through.
use mathlib.Core.Path.{subst}
use zcode2api.Prelude.{
  ℕ, ◌≡◌, refl, sym, ap, ◌∙◌, String, Bool, true, false, not, Option, none, some, truthy, arith,
  if◌then◌else◌,
}
use zcode2api.Egress.{Url}
use zcode2api.ClientPool.{Pool, Known, BreakerKey, same_key, breaker_at}
use zcode2api.ClientPool.Circuit.{Breaker, half_open, quarantined, begun, ended}
use zcode2api.ClientPool.Registry.{Files, load_registry}
use zcode2api.ClientPool.Registry.Kept.{
  load_registry-known, load_registry-Same, load_registry-read_already, read_already,
}
use zcode2api.ClientPool.Admission.{
  breaker_key, is_proxy_quarantined, known_client, begin_request, admit, put_breaker, settle,
  end_request,
}
use zcode2api.ClientPool.Admission.Laws.{
  Probing, admit-Probing, admit-quarantined, begin_request-none, begin_request-some,
  known_client-of, read_already-of, breaker_at-set_breaker,
}
use zcode2api.ClientPool.Admission.Keys.{Occupied, Keeps, put, Occupied-other, Occupied-put}

begun-Keeps : Keeps (λ o. (begun o).0)
unfolding begun
begun-Keeps b half taken =
    (record b { state = half_open; half_open_active = true }, ground (arith, half), refl, refl)

ended-Keeps :
    (cooldown now : ℕ) (success : Option Bool) (is_waf_block : Bool)
    → Keeps (ended cooldown now false success is_waf_block)
unfolding ended
ended-Keeps cooldown now success is_waf_block b half taken = (b, ground (arith, half), half, taken)

module _ (url_of : String → Option Url) where
  -- The breaker that a call for the client reads and changes.
  abbrev pub key_of : Files → ℕ → Pool → BreakerKey
  key_of files c pool =
      let p : Pool = (load_registry url_of files pool).0 in
      let k : Known = known_client c p in breaker_key url_of p k.proxy k.purpose k.identity

  -- What may happen while the probe of the key is in flight: requests of any client begin, and requests
  -- end, well, badly or without a result, that are no probe, or the probe of another key.
  pub data Meanwhile (files : Files) (key : BreakerKey) : Pool → Pool → Type 0 where
    nothing_more : (p : Pool) → Meanwhile files key p p
    begins :
        (now c : ℕ) (p last : Pool)
        → Meanwhile files key (begin_request url_of now files c p).0 last
        → Meanwhile files key p last
    ends :
        (cooldown now c : ℕ) (success : Option Bool) (is_waf_block : Bool) (p last : Pool)
        → Meanwhile files key
            (end_request url_of cooldown now files c false success is_waf_block p)
            last
        → Meanwhile files key p last
    other_probe_ends :
        (cooldown now c : ℕ) (success : Option Bool) (is_waf_block : Bool) (p last : Pool)
        → same_key (key_of files c p) key ≡ false
        → Meanwhile files key
            (end_request url_of cooldown now files c true success is_waf_block p)
            last
        → Meanwhile files key p last

  -- The probe is in flight in a pool that has read the files.
  record Held (files : Files) (key : BreakerKey) (first q : Pool) : Type 0 where
    slots : q.slots ≡ first.slots
    known : q.known ≡ first.known
    read : read_already url_of files.registry q ≡ true
    occupied : Occupied key q.breakers

  if_Held :
      (files : Files) (key : BreakerKey) (first : Pool) (b : Bool) (x y : Pool)
      → Held files key first x
      → Held files key first y
      → Held files key first (if b then x else y)
  if_Held files key first true x y hx hy = hx
  if_Held files key first false x y hx hy = hy

  if_pair :
      (files : Files) (key : BreakerKey) (first : Pool) (b : Bool) (x y : Pool × Option Bool)
      → Held files key first x.0
      → Held files key first y.0
      → Held files key first (if b then x else y).0
  if_pair files key first true x y hx hy = hx
  if_pair files key first false x y hx hy = hy

  load-Held :
      (files : Files) (key : BreakerKey) (first q : Pool)
      → Held files key first q
      → Held files key first (load_registry url_of files q).0
  load-Held files key first q h =
      let same = load_registry-Same url_of files q h.read in
      record {
        slots = same.slots ∙ h.slots;
        known = same.known ∙ h.known;
        read =
            read_already-of url_of files.registry (load_registry url_of files q).0 q same.slots
              same.digest
            ∙ h.read;
        occupied = subst (Occupied key) (sym same.breakers) h.occupied;
      }

  put_breaker-Held :
      (files : Files) (key : BreakerKey) (first q : Pool) (other : BreakerKey) (o : Option Breaker)
      → Held files key first q
      → Occupied key (put other o q.breakers)
      → Held files key first (put_breaker url_of other o q)
  put_breaker-Held files key first q other none h p = h
  put_breaker-Held files key first q other (some b) h p = record {
    slots = h.slots;
    known = h.known;
    read = read_already-of url_of files.registry _ q refl refl ∙ h.read;
    occupied = p;
  }

  begin_request-Held :
      (files : Files) (key : BreakerKey) (first : Pool) (now c : ℕ) (q : Pool)
      → Held files key first q
      → Held files key first (begin_request url_of now files c q).0
  unfolding begin_request admit
  begin_request-Held files key first now c q h =
      let l : Pool = (load_registry url_of files q).0 in
      let loaded : Held files key first l = load-Held files key first q h in
      if_pair files key first (not (truthy (known_client c q).proxy)) (q, some false) _ h
        (if_pair files key first (not (load_registry url_of files q).1) (l, none) _ loaded
          (if_pair files key first _ (l, none) _ loaded
            (put_breaker-Held files key first l (key_of files c q) _ loaded (
              Occupied-put key (key_of files c q) (λ o. (begun o).0) l.breakers begun-Keeps
                loaded.occupied))))

  end_request-Held :
      (files : Files) (key : BreakerKey) (first : Pool) (cooldown now c : ℕ) (probe : Bool)
      (success : Option Bool) (is_waf_block : Bool) (q : Pool)
      → Held files key first q
      → ((l : Pool)
          → Held files key first l
          → Occupied key (
              put
                (key_of files c q)
                (ended cooldown now probe success is_waf_block
                  (breaker_at (key_of files c q) l.breakers))
                l.breakers))
      → Held files key first (end_request url_of cooldown now files c probe success is_waf_block q)
  unfolding end_request settle
  end_request-Held files key first cooldown now c probe success is_waf_block q h put_back =
      let l : Pool = (load_registry url_of files q).0 in
      let loaded : Held files key first l = load-Held files key first q h in
      if_Held files key first (not (truthy (known_client c q).proxy)) q _ h (
        if_Held files key first (not (load_registry url_of files q).1) l _ loaded (
          if_Held files key first _ l _ loaded
            (put_breaker-Held files key first l (key_of files c q) _ loaded (put_back l loaded))))

  Meanwhile-Held :
      (files : Files) (key : BreakerKey) (first p last : Pool)
      → Meanwhile files key p last
      → Held files key first p
      → Held files key first last
  Meanwhile-Held files key first p _ (nothing_more _) h = h
  Meanwhile-Held files key first p last (begins now c _ _ m) h =
      Meanwhile-Held files key first _ last m (begin_request-Held files key first now c p h)
  Meanwhile-Held files key first p last (ends cooldown now c success is_waf_block _ _ m) h =
      Meanwhile-Held files key first _ last m (
        end_request-Held files key first cooldown now c false success is_waf_block p h (λ l k.
          Occupied-put key (key_of files c p) (ended cooldown now false success is_waf_block)
            l.breakers (ended-Keeps cooldown now success is_waf_block) k.occupied))
  Meanwhile-Held files key first p last
        (other_probe_ends cooldown now c success is_waf_block _ _ e m) h =
      Meanwhile-Held files key first _ last m (
        end_request-Held files key first cooldown now c true success is_waf_block p h
          (λ l k. Occupied-other key (key_of files c p) _ l.breakers e k.occupied))

  Occupied-is_proxy_quarantined :
      (later : ℕ) (k : Known) (r : Pool)
      → truthy k.proxy ≡ true
      → Occupied (breaker_key url_of r k.proxy k.purpose k.identity) r.breakers
      → is_proxy_quarantined url_of later r k.proxy k.purpose k.identity ≡ true
  unfolding is_proxy_quarantined quarantined
  Occupied-is_proxy_quarantined later k r named h =
      let busy : quarantined later (some h.breaker) ≡ true = ground (arith, h.half, h.taken) in
      ground (arith, named, h.found, busy)

  Probing-Occupied :
      (p q : Pool) (k : Known)
      → Probing url_of p q k
      → Occupied (breaker_key url_of p k.proxy k.purpose k.identity) q.breakers
  Probing-Occupied p q k h =
      let key = breaker_key url_of p k.proxy k.purpose k.identity in
      record {
        breaker = h.breaker;
        found =
            ap (λ x. breaker_at key x.breakers) h.changed
            ∙ breaker_at-set_breaker key h.breaker p.breakers;
        half = h.half;
        taken = h.taken;
      }

  -- A request that was let through as a probe occupies its exit. Until it ends, while requests of whatever
  -- clients begin, and requests end that are no probe or the probe of another exit, the same client gets
  -- no other request through, at any time, as long as the files stay as they were read.
  pub begin_request_exclusive :
      (now later : ℕ) (files : Files) (c : ℕ) (pool p last : Pool)
      → begin_request url_of now files c pool ≡ (p, some true)
      → Meanwhile files (key_of files c pool) p last
      → (begin_request url_of later files c last).1 ≡ none
  begin_request_exclusive now later files c pool p last h meanwhile =
      let first : Pool = (load_registry url_of files pool).0 in
      let second : Pool = (load_registry url_of files last).0 in
      let (named, read, admitted) = begin_request-some url_of now files c pool p h in
      let k : Known = known_client c first in
      let key : BreakerKey = key_of files c pool in
      let probing : Probing url_of first p k =
        admit-Probing url_of now files k first p (breaker_at key first.breakers) refl admitted in
      let same_slots : p.slots ≡ first.slots = ap (λ x. x.slots) probing.changed in
      let left : Held files key first p = record {
        slots = same_slots;
        known = ap (λ x. x.known) probing.changed;
        read =
            read_already-of url_of files.registry p first same_slots
              (ap (λ x. x.digest) probing.changed)
            ∙ load_registry-read_already url_of files pool read;
        occupied = Probing-Occupied first p k probing;
      } in
      let held : Held files key first last = Meanwhile-Held files key first p last meanwhile left in
      let again : Held files key first second = load-Held files key first last held in
      let k_pool : k ≡ known_client c pool =
        known_client-of url_of c first pool (load_registry-known url_of files pool) in
      let k_last : known_client c last ≡ k = known_client-of url_of c last first held.known in
      let k_second : known_client c second ≡ k =
        known_client-of url_of c second first again.known in
      let k_named : truthy k.proxy ≡ true = subst (λ x. truthy x.proxy ≡ true) (sym k_pool) named in
      let key_now : key ≡ breaker_key url_of second k.proxy k.purpose k.identity =
        ap (λ x. breaker_key url_of (record second { slots = x }) k.proxy k.purpose k.identity)
          (sym again.slots) in
      let busy =
        Occupied-is_proxy_quarantined later k second k_named
          (subst (λ x. Occupied x second.breakers) key_now again.occupied) in
      begin_request-none url_of later files c last
        (subst (λ x. truthy x.proxy ≡ true) (sym k_last) k_named)
        (subst (λ x. (admit url_of later files x second).1 ≡ none) (sym k_second)
          (admit-quarantined url_of later files k second busy))
