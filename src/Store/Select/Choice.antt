-- ===== src/Store/Select/Choice.antt =====
-- app/store.py: what `select` guarantees of the account that it returns, and of returning none.
use native.Mathlib.Nat.{mod-lt}
use mathlib.Core.Path.{subst}
use zcode2api.Prelude.{
  ℕ, ◌%◌, ◌≡◌, ◌≢◌, ◌⊎◌, inl, inr, refl, String, Bool, true, false, not, Option, none, some, List,
  [], ◌∷◌, str_eq, length, keep_if, member, truthy, opt_text, arith, Among, Among-keep_if,
  Among-keep_if_of, Among-get_elem?, Bool-cases, get_elem?_total, eq_iff,
}
use zcode2api.Account.{Account, is_selectable, has_model_quota, explicitly_supports_model}
use zcode2api.Store.{Store, accounts_of}
use zcode2api.Store.Select.{
  Query, verdict, is_candidate, candidates, or_list, by_model, avoiding, prefer, choose, cursor_of,
  shortlist, select,
}

-- The account's region, if it has one, is among the healthy ones, where the caller gave a set.
abbrev pub Reachable : Option (List String) → Option String → Type 0
Reachable none region = Unit
Reachable (some healthy) region =
    (truthy region ≡ false) ⊎ (member (opt_text region) healthy ≡ true)

-- An account that may serve the request, by the account's own tests.
pub record Eligible (now : ℕ) (q : Query) (a : Account) : Type 0 where
  pub selectable : is_selectable now a ≡ true
  pub untried : member a.id q.skip_ids ≡ false
  pub stocked : has_model_quota q.model a ≡ true
  pub reachable : Reachable q.healthy_regions a.assigned_region

candidate-Eligible :
    (now : ℕ) (q : Query) (a : Account) → is_candidate (verdict now q a) ≡ true → Eligible now q a
unfolding verdict is_selectable has_model_quota
candidate-Eligible now q a h = ground arith

Eligible-candidate :
    (now : ℕ) (q : Query) (a : Account) → Eligible now q a → is_candidate (verdict now q a) ≡ true
unfolding verdict is_selectable has_model_quota
Eligible-candidate now q a e = ground (arith, e.reachable)

Among-or_list :
    {A : Type 0} (xs ys : List A) (a : A) → Among a (or_list xs ys) → Among a xs ⊎ Among a ys
Among-or_list [] ys a h = inr h
Among-or_list (x ∷ xs) ys a h = inl h

either {ℓ κ} : {A B : Type ℓ} {C : Type κ} → (A → C) → (B → C) → A ⊎ B → C
either f g (inl a) = f a
either f g (inr b) = g b

-- Whoever is on the filtered list, or on the whole one if that is empty, is on the whole one.
Among-filtered :
    {A : Type 0} (p : A → Bool) (xs : List A) (a : A)
    → Among a (or_list (keep_if p xs) xs)
    → Among a xs
Among-filtered p xs a h =
    either (λ m. (Among-keep_if p xs a m).1) (λ m. m) (Among-or_list (keep_if p xs) xs a h)

Among-by_model :
    (model : Option String) (pool : List Account) (a : Account)
    → Among a (by_model model pool)
    → Among a pool
unfolding by_model
Among-by_model model pool a h = elim (Bool-cases (truthy model)) [
  | inl e ↦ Among-filtered (explicitly_supports_model model) pool a (rw e at h)
  | inr e ↦ rw e at h
]

Among-avoiding :
    (avoid : Option String) (pool : List Account) (a : Account)
    → Among a (avoiding avoid pool)
    → Among a pool
unfolding avoiding
Among-avoiding avoid pool a h = elim (Bool-cases (truthy avoid)) [
  | inl e ↦ Among-filtered (λ b. not (str_eq b.id (opt_text avoid))) pool a (rw e at h)
  | inr e ↦ rw e at h
]

-- Where some element passes the filter, the fallback is not taken: the filtered list stands.
or_list_kept : {A : Type 0} (ys xs : List A) (b : A) → Among b ys → or_list ys xs ≡ ys
or_list_kept [] xs b m = absurd m
or_list_kept (y ∷ ys) xs b m = refl

filtered_passes :
    {A : Type 0} (p : A → Bool) (xs : List A) (a b : A)
    → Among b xs
    → p b ≡ true
    → Among a (or_list (keep_if p xs) xs)
    → p a ≡ true
filtered_passes p xs a b mb pb h =
    let kept = or_list_kept (keep_if p xs) xs b (Among-keep_if_of p xs b pb mb) in
    (Among-keep_if p xs a (rw kept at h)).0

by_model-truthy :
    (model : Option String) (pool : List Account)
    → truthy model ≡ true
    → by_model model pool ≡ or_list (keep_if (explicitly_supports_model model) pool) pool
unfolding by_model
by_model-truthy model pool h = rw h

avoiding-truthy :
    (avoid : Option String) (pool : List Account)
    → truthy avoid ≡ true
    → avoiding avoid pool ≡ or_list (keep_if (λ a. not (str_eq a.id (opt_text avoid))) pool) pool
unfolding avoiding
avoiding-truthy avoid pool h = rw h

-- An account that explicitly supports the model stays on the list.
Among-by_model_of :
    (model : Option String) (pool : List Account) (b : Account)
    → Among b pool
    → explicitly_supports_model model b ≡ true
    → Among b (by_model model pool)
unfolding by_model
Among-by_model_of model pool b m yields = elim (Bool-cases (truthy model)) [
  | inl e ↦
      let here = Among-keep_if_of (explicitly_supports_model model) pool b yields m in
      rw (e, or_list_kept (keep_if (explicitly_supports_model model) pool) pool b here) here
  | inr e ↦ rw e m
]

or_list_empty : {A : Type 0} (ys xs : List A) → or_list ys xs ≡ [] → xs ≡ []
or_list_empty [] xs h = h
or_list_empty (y ∷ ys) xs h = cc

prefer_empty : (q : Query) (pool : List Account) → prefer q pool ≡ [] → pool ≡ []
unfolding prefer
prefer_empty q pool h = ground (
  arith,
  or_list_empty (keep_if (explicitly_supports_model q.model) pool) pool,
  or_list_empty (keep_if (λ a. not (str_eq a.id (opt_text q.avoid_id))) (by_model q.model pool))
      (by_model q.model pool),
)

chosen_from :
    (provider : String) (s : Store) (xs : List Account) (a : Account)
    → (choose provider s xs).0 ≡ some a
    → Among a xs
chosen_from provider s [] a h = absurd (cc)
chosen_from provider s (x ∷ xs) a h =
    Among-get_elem? (x ∷ xs) (cursor_of s provider % length (x ∷ xs)) a h

choose-none :
    (provider : String) (s : Store) (xs : List Account) → (choose provider s xs).0 ≡ none → xs ≡ []
choose-none provider s [] h = refl
choose-none provider s (x ∷ xs) h =
    let i = cursor_of s provider % length (x ∷ xs) in
    let (a, e) = get_elem?_total (x ∷ xs) i (mod-lt (cursor_of s provider) (omega arith)) in
    absurd (cc (h, e))

module _ (now : ℕ) (provider : String) (q : Query) (s : Store) where
  abbrev pool : List Account
  pool = candidates now q (accounts_of s provider)

  chosen-shortlist :
      (a : Account) → (select now provider q s).0 ≡ some a → Among a (shortlist now provider q s)
  unfolding select
  chosen-shortlist a h = chosen_from provider s (shortlist now provider q s) a h

  chosen-by_model :
      (a : Account) → (select now provider q s).0 ≡ some a → Among a (by_model q.model pool)
  unfolding shortlist prefer
  chosen-by_model a h = Among-avoiding q.avoid_id (by_model q.model pool) a (chosen-shortlist a h)

  pool-Among : (a : Account) → Among a pool → Eligible now q a × Among a (accounts_of s provider)
  unfolding candidates
  pool-Among a m =
      let (c, here) =
        Among-keep_if (λ b. is_candidate (verdict now q b)) (accounts_of s provider) a m in
      (candidate-Eligible now q a c, here)

  Among-pool : (b : Account) → Among b (accounts_of s provider) → Eligible now q b → Among b pool
  unfolding candidates
  Among-pool b m e =
      Among-keep_if_of (λ a. is_candidate (verdict now q a)) (accounts_of s provider) b
        (Eligible-candidate now q b e) m

  -- The account that `select` returns stands in the provider's pool and is eligible: selectable now,
  -- not tried before, with quota for the model, and in a healthy region where regions are looked at.
  pub select-Eligible :
      (a : Account)
      → (select now provider q s).0 ≡ some a
      → Eligible now q a × Among a (accounts_of s provider)
  select-Eligible a h = pool-Among a (Among-by_model q.model pool a (chosen-by_model a h))

  -- When `select` returns no account, no account of the provider's pool is eligible.
  pub select-none :
      (b : Account)
      → (select now provider q s).0 ≡ none
      → Among b (accounts_of s provider)
      → ¬ Eligible now q b
  unfolding select shortlist
  select-none b h m e =
      let empty = prefer_empty q pool (choose-none provider s (prefer q pool) h) in
      subst (Among b) empty (Among-pool b m e)

  -- Where some eligible account explicitly supports the requested model, the one returned does.
  pub select-explicitly_supports :
      (a b : Account)
      → (select now provider q s).0 ≡ some a
      → truthy q.model ≡ true
      → Among b (accounts_of s provider)
      → Eligible now q b
      → explicitly_supports_model q.model b ≡ true
      → explicitly_supports_model q.model a ≡ true
  select-explicitly_supports a b h named m e yields =
      filtered_passes (explicitly_supports_model q.model) pool a b (Among-pool b m e) yields
        (subst (Among a) (by_model-truthy q.model pool named) (chosen-by_model a h))

  -- The account to avoid is not returned where another eligible account explicitly supports the
  -- model, as every account does when no model is named.
  pub select-ne-avoid_id :
      (a b : Account)
      → (select now provider q s).0 ≡ some a
      → truthy q.avoid_id ≡ true
      → Among b (accounts_of s provider)
      → Eligible now q b
      → explicitly_supports_model q.model b ≡ true
      → b.id ≢ opt_text q.avoid_id
      → a.id ≢ opt_text q.avoid_id
  unfolding shortlist prefer
  select-ne-avoid_id a b h avoids m e yields other =
      let other_than = λ (c : Account). not (str_eq c.id (opt_text q.avoid_id)) in
      let rest = by_model q.model pool in
      let b_passes : other_than b ≡ true = ground (arith, eq_iff b.id (opt_text q.avoid_id)) in
      let a_passes : other_than a ≡ true =
        filtered_passes other_than rest a b
          (Among-by_model_of q.model pool b (Among-pool b m e) yields) b_passes
          (subst (Among a) (avoiding-truthy q.avoid_id rest avoids) (chosen-shortlist a h)) in
      λ same. ground (arith, eq_iff a.id (opt_text q.avoid_id))
