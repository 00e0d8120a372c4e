-- ===== src/ClientPool/Registry/Kept.antt =====
-- app/client_pool.py: what `load_registry` keeps of the pool, and what it retires for good.
use mathlib.Core.Path.{subst}
use zcode2api.Prelude.{
  ◌≡◌, refl, sym, String, Bool, true, false, not, ◌&&◌, Option, none, some, List, [], ◌∷◌, ◌++◌,
  if◌then◌else◌, any, is_empty, arith, eq_refl,
}
use zcode2api.Prelude.Dict.{Dict}
use zcode2api.Egress.{Url, Identity, Slot, same_identity}
use zcode2api.ClientPool.{same_text, Breakers, Pool, is_closed_identity, close_all}
use zcode2api.ClientPool.Registry.{
  Files, RegistryFile, Retirement, absent, unreadable, listed, load_registry, adopt, install, moved,
  without, adopt_content, load_from,
}

any-append :
    (i : Identity) (l m : List Identity)
    → any (same_identity i) m ≡ true
    → any (same_identity i) (l ++ m) ≡ true
any-append i [] m h = h
any-append i (j ∷ l) m h = ground (arith, any-append i l m h)

any-append_left :
    (i : Identity) (l m : List Identity)
    → any (same_identity i) l ≡ true
    → any (same_identity i) (l ++ m) ≡ true
any-append_left i [] m h = absurd (ground arith)
any-append_left i (j ∷ l) m h = ground (arith, any-append_left i l m)

module _ (url_of : String → Option Url) where
  load_from-known :
      (r : Option RegistryFile) (retirement : Retirement) (pool : Pool)
      → (load_from url_of r retirement pool).0.known ≡ pool.known
  unfolding load_from install adopt_content adopt
  load_from-known none retirement pool = refl
  load_from-known (some file) absent pool = ground arith
  load_from-known (some file) unreadable pool = refl
  load_from-known (some file) (listed is) pool = ground arith

  pub load_registry-known :
      (files : Files) (pool : Pool) → (load_registry url_of files pool).0.known ≡ pool.known
  unfolding load_registry
  load_registry-known files pool = load_from-known files.registry files.retirement pool

  adopt_content-closed :
      (digest : String) (content : _) (pool : Pool) (i : Identity)
      → is_closed_identity pool i ≡ true
      → is_closed_identity (adopt_content url_of digest content pool).0 i ≡ true
  unfolding adopt_content adopt
  adopt_content-closed digest none pool i h = h
  adopt_content-closed digest (some (regions, slots)) pool i h =
      ground (arith, any-append i (moved url_of slots pool.known) pool.closed_identities h)

  install-closed :
      (file : RegistryFile) (pool : Pool) (i : Identity)
      → is_closed_identity pool i ≡ true
      → is_closed_identity (install url_of file pool).0 i ≡ true
  unfolding install
  install-closed file pool i h =
      ground (arith, adopt_content-closed file.digest file.content pool i h)

  load_from-closed :
      (r : Option RegistryFile) (retirement : Retirement) (pool : Pool) (i : Identity)
      → is_closed_identity pool i ≡ true
      → is_closed_identity (load_from url_of r retirement pool).0 i ≡ true
  unfolding load_from
  load_from-closed none retirement pool i h = h
  load_from-closed (some file) absent pool i h = install-closed file pool i h
  load_from-closed (some file) unreadable pool i h = h
  load_from-closed (some file) (listed is) pool i h =
      install-closed file (close_all is pool) i (any-append i is pool.closed_identities h)

  -- An identity that was once retired stays retired, whether the registry could be read or not.
  pub load_registry-closed :
      (files : Files) (pool : Pool) (i : Identity)
      → is_closed_identity pool i ≡ true
      → is_closed_identity (load_registry url_of files pool).0 i ≡ true
  unfolding load_registry
  load_registry-closed files pool i h = load_from-closed files.registry files.retirement pool i h

  -- What a second reading of unchanged files leaves as it is.
  pub record Same (a b : Pool) : Type 0 where
    pub slots : a.slots ≡ b.slots
    pub breakers : a.breakers ≡ b.breakers
    pub known : a.known ≡ b.known
    pub digest : a.digest ≡ b.digest

  install-digest :
      (file : RegistryFile) (pool : Pool)
      → (install url_of file pool).1 ≡ true
      → same_text (install url_of file pool).0.digest (some file.digest) ≡ true
  unfolding install adopt_content adopt
  install-digest file pool h = ground (arith, eq_refl file.digest)

  install-again :
      (file : RegistryFile) (pool : Pool)
      → same_text pool.digest (some file.digest) ≡ true
      → install url_of file pool ≡ (pool, true)
  unfolding install
  install-again file pool h = ground arith

  -- A second reading finds what the first one adopted.
  abbrev pub read_already : Option RegistryFile → Pool → Bool
  read_already none pool = is_empty pool.slots
  read_already (some file) pool = same_text pool.digest (some file.digest)

  load_from-read_already :
      (r : Option RegistryFile) (retirement : Retirement) (pool : Pool)
      → (load_from url_of r retirement pool).1 ≡ true
      → read_already r (load_from url_of r retirement pool).0 ≡ true
  unfolding load_from
  load_from-read_already none retirement pool h = h
  load_from-read_already (some file) absent pool h = install-digest file pool h
  load_from-read_already (some file) unreadable pool h = absurd (ground arith)
  load_from-read_already (some file) (listed is) pool h = install-digest file (close_all is pool) h

  load_from-Same :
      (r : Option RegistryFile) (retirement : Retirement) (p : Pool)
      → read_already r p ≡ true
      → Same (load_from url_of r retirement p).0 p
  unfolding load_from
  load_from-Same none retirement p h = record {
    slots = refl;
    breakers = refl;
    known = refl;
    digest = refl;
  }
  load_from-Same (some file) absent p h =
      subst (λ x. Same x.0 p) (sym (install-again file p h))
        (record { slots = refl; breakers = refl; known = refl; digest = refl })
  load_from-Same (some file) unreadable p h = record {
    slots = refl;
    breakers = refl;
    known = refl;
    digest = refl;
  }
  load_from-Same (some file) (listed is) p h =
      subst (λ x. Same x.0 p) (sym (install-again file (close_all is p) h))
        (record { slots = refl; breakers = refl; known = refl; digest = refl })

  pub load_registry-read_already :
      (files : Files) (pool : Pool)
      → (load_registry url_of files pool).1 ≡ true
      → read_already files.registry (load_registry url_of files pool).0 ≡ true
  unfolding load_registry
  load_registry-read_already files pool h =
      load_from-read_already files.registry files.retirement pool h

  pub load_registry-Same :
      (files : Files) (p : Pool)
      → read_already files.registry p ≡ true
      → Same (load_registry url_of files p).0 p
  unfolding load_registry
  load_registry-Same files p h = load_from-Same files.registry files.retirement p h

  -- A property that no field of the registry matters to is kept.
  abbrev pub Stable : (Pool → Type 0) → Type 0
  Stable P =
      (pool : Pool) (regions : Dict (List String)) (slots : Dict Slot) (digest : Option String)
      (closed : List Identity) (breakers : Breakers)
      → P pool
      → P (record pool {
        regions = regions;
        slots = slots;
        digest = digest;
        closed_identities = closed;
        breakers = breakers;
      })

  module _ (P : Pool → Type 0) (stable : Stable P) where
    kept-if : (b : Bool) (p q : Pool × Bool) → P p.0 → P q.0 → P (if b then p else q).0
    kept-if true p q h k = h
    kept-if false p q h k = k

    kept-adopt_content :
        (digest : String) (content : Option (Dict (List String) × Dict Slot)) (pool : Pool)
        → P pool
        → P (adopt_content url_of digest content pool).0
    unfolding adopt_content adopt
    kept-adopt_content digest none pool h = h
    kept-adopt_content digest (some (regions, slots)) pool h =
        kept-if (not (is_empty pool.slots) && is_empty slots) (pool, false)
          (adopt url_of digest regions slots pool, true) h
          (stable pool regions slots (some digest)
            (moved url_of slots pool.known ++ pool.closed_identities)
            (without url_of (moved url_of slots pool.known) pool.breakers) h)

    kept-install : (file : RegistryFile) (pool : Pool) → P pool → P (install url_of file pool).0
    unfolding install
    kept-install file pool h =
        kept-if (same_text pool.digest (some file.digest)) (pool, true)
          (adopt_content url_of file.digest file.content pool) h
          (kept-adopt_content file.digest file.content pool h)

    kept-load_from :
        (r : Option RegistryFile) (retirement : Retirement) (pool : Pool)
        → P pool
        → P (load_from url_of r retirement pool).0
    unfolding load_from
    kept-load_from none retirement pool h = h
    kept-load_from (some file) absent pool h = kept-install file pool h
    kept-load_from (some file) unreadable pool h = h
    kept-load_from (some file) (listed is) pool h = kept-install file (close_all is pool) (
        stable pool pool.regions pool.slots pool.digest (is ++ pool.closed_identities) pool.breakers
          h)

    pub kept-load_registry :
        (files : Files) (pool : Pool) → P pool → P (load_registry url_of files pool).0
    unfolding load_registry
    kept-load_registry files pool h = kept-load_from files.registry files.retirement pool h
