-- ===== src/Prelude/Membership.antt =====
-- Membership by recursion, which case splits can open, and what filters and indices do to it.
use Prim.Native.Nat.{ℕ, zero, suc}
use mathlib.Core.Path.{◌≡◌, sym, subst}
use mathlib.Core.Logic.{◌⊎◌, inl, inr}
use mathlib.Core.Bool.{Bool, true, false}
use mathlib.Core.List.{List, [], ◌∷◌, ◌++◌}
use mathlib.Core.Option.{none, some, some-injective}
use native.Mathlib.Omega.{arith}
use zcode2api.Prelude.Lists.{get_elem?, keep_if, find_first, All}

module _ {A : Type 0} where
  abbrev pub Among : A → List A → Type 0
  Among a [] = ⊥
  Among a (x ∷ xs) = (a ≡ x) ⊎ Among a xs

module _ {A : Type 0} where
  pub Among-get_elem? : (xs : List A) (i : ℕ) (a : A) → get_elem? xs i ≡ some a → Among a xs
  Among-get_elem? [] i a h = absurd (cc)
  Among-get_elem? (x ∷ xs) zero a h = inl (sym (some-injective x a h))
  Among-get_elem? (x ∷ xs) (suc i) a h = inr (Among-get_elem? xs i a h)

  pub Among-keep_if :
      (p : A → Bool) (xs : List A) (a : A) → Among a (keep_if p xs) → (p a ≡ true) × Among a xs
  Among-keep_if p [] a h = absurd h
  Among-keep_if p (x ∷ xs) a h = ground (arith, Among-keep_if p xs a)

  pub Among-keep_if_of :
      (p : A → Bool) (xs : List A) (a : A) → p a ≡ true → Among a xs → Among a (keep_if p xs)
  Among-keep_if_of p [] a e h = absurd h
  Among-keep_if_of p (x ∷ xs) a e h = ground (arith, Among-keep_if_of p xs a)

  -- A filter that keeps nothing: no element passes.
  pub keep_if_empty :
      (p : A → Bool) (xs : List A) (a : A) → keep_if p xs ≡ [] → Among a xs → p a ≡ false
  keep_if_empty p [] a e h = absurd h
  keep_if_empty p (x ∷ xs) a e h = ground (arith, keep_if_empty p xs a)

  pub Among-append_left : (xs ys : List A) (a : A) → Among a xs → Among a (xs ++ ys)
  Among-append_left [] ys a h = absurd h
  Among-append_left (x ∷ xs) ys a (inl e) = inl e
  Among-append_left (x ∷ xs) ys a (inr m) = inr (Among-append_left xs ys a m)

  pub Among-append_right : (xs ys : List A) (a : A) → Among a ys → Among a (xs ++ ys)
  Among-append_right [] ys a h = h
  Among-append_right (x ∷ xs) ys a h = inr (Among-append_right xs ys a h)

  pub Among-find_first :
      (p : A → Bool) (xs : List A) (a : A) → find_first p xs ≡ some a → Among a xs
  Among-find_first p [] a h = absurd (cc)
  Among-find_first p (x ∷ xs) a h = ground (arith, Among-find_first p xs a)

  pub find_first-none :
      (p : A → Bool) (xs : List A) (a : A) → find_first p xs ≡ none → Among a xs → p a ≡ false
  find_first-none p [] a e h = absurd h
  find_first-none p (x ∷ xs) a e h = ground (arith, find_first-none p xs a)

  pub All-Among : (P : A → Type 0) (xs : List A) (a : A) → All P xs → Among a xs → P a
  All-Among P [] a h m = absurd m
  All-Among P (x ∷ xs) a h (inl e) = subst P (sym e) h.0
  All-Among P (x ∷ xs) a h (inr m) = All-Among P xs a h.1 m
