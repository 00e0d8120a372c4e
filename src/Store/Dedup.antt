-- ===== src/Store/Dedup.antt =====
-- app/store.py: `add_account` never puts two accounts of one identity into a pool.
use mathlib.Core.Path.{subst}
use zcode2api.Prelude.{
  ◌≡◌, refl, sym, ◌∙◌, String, Bool, true, false, Option, none, some, List, [], ◌∷◌, ◌++◌, str_eq,
  if◌then◌else◌, truthy, nonempty, arith, eq_refl, All, All-append_last, Among,
}
use zcode2api.Prelude.Dict.{get-put}
use zcode2api.Prelude.Json.{Json}
use zcode2api.Account.{Account, create, secret}
use zcode2api.Region.{Registry, pick_region}
use zcode2api.Store.{
  Store, ok, value_error, attribute_error, accounts_of, identity, find_same, assign_region,
  persist_account, region_distribution,
}
use zcode2api.Store.Ops.{Draw, admitted, appended, add_new, add_account}

module _ (payload_of : String → Option Json) where
  -- Both accounts have the same identity, and it is not blank.
  pub record Same (a b : Account) : Type 0 where
    pub shared : String
    pub left : identity payload_of a ≡ ok (some shared)
    pub right : identity payload_of b ≡ ok (some shared)
    pub named : nonempty shared ≡ true

  -- No two accounts of the pool have the same identity.
  abbrev pub Distinct : List Account → Type 0
  Distinct [] = Unit
  Distinct (a ∷ l) = All (λ b. ¬ Same a b) l × Distinct l

  find_same-none :
      (new : Account) (l : List Account)
      → find_same payload_of new l ≡ ok none
      → All (λ a. ¬ Same a new) l
  unfolding find_same
  find_same-none new [] h = tt
  find_same-none new (a ∷ l) h = (
    λ (same : Same a new). ground (arith, same.left, same.right, same.named, eq_refl same.shared),
    find_same-none new l (ground arith),
  )

  Distinct-append :
      (l : List Account) (new : Account)
      → Distinct l
      → All (λ a. ¬ Same a new) l
      → Distinct (l ++ new ∷ [])
  Distinct-append [] new d h = (tt, tt)
  Distinct-append (a ∷ l) new d h =
      (All-append_last (λ b. ¬ Same a b) l new d.0 h.0, Distinct-append l new d.1 h.1)

  module _ (registry : Option Registry) where
    -- The region and the install token are no part of the identity.
    identity-region :
        (a : Account) (r i : Option String)
        → identity payload_of (record a { assigned_region = r; install_id = i })
          ≡ identity payload_of a
    unfolding identity secret
    identity-region a r i = refl

    identity-assigned :
        (k : Option String) (held : Bool) (a : Account) (i : Option String)
        → (let x : Account × Bool = if held then (a, false) else elim k [
          | none ↦ (a, false)
          | some r ↦ (record a { assigned_region = some r }, true)
        ] in
            identity payload_of (record x.0 { install_id = i }) ≡ identity payload_of a)
    identity-assigned k true a i = identity-region a a.assigned_region i
    identity-assigned none false a i = identity-region a a.assigned_region i
    identity-assigned (some r) false a i = identity-region a (some r) i

    identity-admitted_in :
        (k : Option Registry) (a : Account) (s : Store) (i : Option String)
        → identity payload_of (record (assign_region s k a).0 { install_id = i })
          ≡ identity payload_of a
    unfolding assign_region
    identity-admitted_in none a s i = identity-region a a.assigned_region i
    identity-admitted_in (some regions) a s i =
        identity-assigned (pick_region (region_distribution s) (some regions))
          (truthy a.assigned_region) a i

    identity-admitted :
        (d : Draw) (a : Account) (s : Store)
        → identity payload_of (admitted payload_of registry d a s) ≡ identity payload_of a
    unfolding admitted
    identity-admitted d a s = identity-admitted_in registry a s (some d.install)

    provider-create :
        (d : Draw) (p name secret : String) → (create d.id d.now p name secret).provider ≡ p
    unfolding create
    provider-create d p name secret = refl

    pool-appended :
        (d : Draw) (a : Account) (s : Store) (j : String)
        → accounts_of (appended payload_of registry d a s) j ≡ (
            if str_eq a.provider j
            then accounts_of s a.provider ++ admitted payload_of registry d a s ∷ []
            else accounts_of s j)
    unfolding persist_account
    pool-appended d a s j = ground (
      arith,
      get-put a.provider j (accounts_of s a.provider ++ admitted payload_of registry d a s ∷ [])
          s.accounts,
    )

    refuses-same :
        (a b new : Account)
        → identity payload_of b ≡ identity payload_of new
        → ¬ Same a new
        → ¬ Same a b
    refuses-same a b new h fresh same = fresh (record {
      shared = same.shared;
      left = same.left;
      right = sym h ∙ same.right;
      named = same.named;
    })

    All-refuses :
        (b new : Account)
        → identity payload_of b ≡ identity payload_of new
        → (l : List Account) → All (λ a. ¬ Same a new) l
        → All (λ a. ¬ Same a b) l
    All-refuses b new h [] all = tt
    All-refuses b new h (a ∷ l) all = (refuses-same a b new h all.0, All-refuses b new h l all.1)

    -- What `add_account` does to the pools: it hands out a stored account and changes nothing, or its
    -- own account stands at the end of the pool, which was without that identity.
    pub record Appended (provider : String) (s s' : Store) (r : Account) : Type 0 where
      pub pool : accounts_of s' provider ≡ accounts_of s provider ++ r ∷ []
      pub others : (j : String) → str_eq provider j ≡ false → accounts_of s' j ≡ accounts_of s j
      pub fresh : All (λ a. ¬ Same a r) (accounts_of s provider)

    add_new-Appended :
        (d : Draw) (p name secret : String) (s : Store)
        → find_same payload_of (create d.id d.now p name secret) (accounts_of s p) ≡ ok none
        → Appended p s
            (appended payload_of registry d (create d.id d.now p name secret) s)
            (admitted payload_of registry d (create d.id d.now p name secret) s)
    add_new-Appended d p name secret s h =
        let new = create d.id d.now p name secret in
        let same_key = provider-create d p name secret in
        record {
          pool = ground (arith, pool-appended d new s p, same_key, eq_refl p);
          others = λ j e. ground (arith, pool-appended d new s j, same_key);
          fresh =
              All-refuses (admitted payload_of registry d new s) new (identity-admitted d new s)
                (accounts_of s p) (find_same-none new (accounts_of s p) h);
        }

    -- What a successful `add_account` did: the account handed out is in the pool and the store is as it
    -- was, or it is new.
    pub data Added (provider : String) (s s' : Store) (r : Account) : Type 0 where
      duplicate : Among r (accounts_of s provider) → s' ≡ s → Added provider s s' r
      added : Appended provider s s' r → Added provider s s' r

    find_same-Among :
        (new : Account) (l : List Account) (r : Account)
        → find_same payload_of new l ≡ ok (some r)
        → Among r l
    unfolding find_same
    find_same-Among new [] r h = ground arith
    find_same-Among new (a ∷ l) r h = ground (arith, find_same-Among new l r)

    pair_of : (x y : Account × Store) → ok x ≡ ok y → x ≡ y
    pair_of x y h = cc

    add_new-Added :
        (d : Draw) (p name secret : String) (s : Store) (r : Account) (s' : Store)
        (o : Option Account)
        → find_same payload_of (create d.id d.now p name secret) (accounts_of s p) ≡ ok o
        → add_new payload_of registry d (create d.id d.now p name secret) s o ≡ ok (r, s')
        → Added p s s' r
    add_new-Added d p name secret s r s' (some same) found h =
        let e = pair_of (same, s) (r, s') h in
        subst (λ x. Added p s x.1 x.0) e
          (duplicate
            (find_same-Among (create d.id d.now p name secret) (accounts_of s p) same found) refl)
    add_new-Added d p name secret s r s' none found h =
        let new = create d.id d.now p name secret in
        let e =
          pair_of (admitted payload_of registry d new s, appended payload_of registry d new s)
            (r, s') h in
        subst (λ x. Added p s x.1 x.0) e (added (add_new-Appended d p name secret s found))

    -- A successful `add_account` either hands out an account that stood in the provider's pool, and
    -- leaves the store as it was, or puts the account that it hands out at the end of that pool, whose
    -- accounts all have another identity, and leaves the other pools.
    pub add_account-Added :
        (d : Draw) (p name secret : String) (s : Store) (r : Account) (s' : Store)
        → add_account payload_of registry d p name secret s ≡ ok (r, s')
        → Added p s s' r
    unfolding add_account
    add_account-Added d p name secret s r s' h =
        let new = create d.id d.now p name secret in
        elim (find_same payload_of new (accounts_of s p))
            as (λ o. find_same payload_of new (accounts_of s p) ≡ o → Added p s s' r) [
              | ok o ↦ λ e. add_new-Added d p name secret s r s' o e (ground arith)
              | value_error ↦ λ e. absurd (ground arith)
              | attribute_error ↦ λ e. absurd (ground arith)
            ]
          refl

    -- If the accounts of a provider's pool have pairwise different identities, so have those of the pool
    -- after a successful `add_account`; the identity of a blank text counts as none.
    pub add_account-Distinct :
        (d : Draw) (p name secret : String) (s : Store) (r : Account) (s' : Store)
        → Distinct (accounts_of s p)
        → add_account payload_of registry d p name secret s ≡ ok (r, s')
        → Distinct (accounts_of s' p)
    add_account-Distinct d p name secret s r s' distinct h =
        elim (add_account-Added d p name secret s r s' h) [
          | duplicate _ e ↦ subst (λ x. Distinct (accounts_of x p)) (sym e) distinct
          | added new ↦
              subst Distinct (sym new.pool) (Distinct-append (accounts_of s p) r distinct new.fresh)
        ]
