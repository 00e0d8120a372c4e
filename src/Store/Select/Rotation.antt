-- ===== src/Store/Select/Rotation.antt =====
-- app/store.py: the rotation cursor of `select` turns over the whole shortlist.
use native.Mathlib.Nat.{mod-lt, mod-eq_of_lt, mul-add-mod_self_left, div-add-mod}
use native.Mathlib.Decide.{dec_le}
use zcode2api.Prelude.{
  ℕ, zero, suc, ◌+◌, ◌-◌, ◌*◌, ◌/◌, ◌%◌, ◌≤◌, ◌<◌, ◌≡◌, refl, ap, ◌∙◌, String, some, List, [], ◌∷◌,
  length, get_elem?, arith, eq_refl, if◌then◌else◌, leb, le→leb, false,
}
use zcode2api.Prelude.Dict
use zcode2api.Prelude.Dict.{get-put}
use zcode2api.Account.{Account}
use zcode2api.Store.{Store}
use zcode2api.Store.Select.{
  Query, or_zero, cursor_of, advance, shortlist, choose, select, rotation_limit,
}

-- The store after `k` selections with the same arguments and no other change.
unfoldable pub after_selects : ℕ → ℕ → String → Query → Store → Store
after_selects zero now provider q s = s
after_selects (suc k) now provider q s = after_selects k now provider q (select now provider q s).1

cursor-advance :
    (provider : String) (s : Store)
    → cursor_of (advance provider s) provider ≡ (cursor_of s provider + 1) % rotation_limit
cursor-advance provider s =
    let moved = (cursor_of s provider + 1) % rotation_limit in
    let found : Dict.get provider (Dict.put provider moved s.rotation) ≡ some moved =
      get-put provider provider moved s.rotation ∙ rw eq_refl in
    ap or_zero found

-- The shortlist does not look at the cursors.
shortlist-advance :
    (now : ℕ) (provider : String) (q : Query) (s : Store)
    → shortlist now provider q (advance provider s) ≡ shortlist now provider q s
unfolding shortlist
shortlist-advance now provider q s = refl

state-choose :
    (provider : String) (s : Store) (xs : List Account)
    → 0 < length xs
    → (choose provider s xs).1 ≡ advance provider s
state-choose provider s [] h = elim h [ ]
state-choose provider s (x ∷ xs) h = refl

result-choose :
    (provider : String) (s : Store) (xs : List Account)
    → (choose provider s xs).0 ≡ get_elem? xs (cursor_of s provider % length xs)
result-choose provider s [] = refl
result-choose provider s (x ∷ xs) = refl

module _ (now : ℕ) (provider : String) (q : Query) where
  advance-select :
      (s : Store)
      → 0 < length (shortlist now provider q s)
      → (select now provider q s).1 ≡ advance provider s
  unfolding select
  advance-select s h = state-choose provider s (shortlist now provider q s) h

  after_selects-suc :
      (k : ℕ) (s : Store)
      → 0 < length (shortlist now provider q s)
      → after_selects (suc k) now provider q s ≡ after_selects k now provider q (advance provider s)
  unfolding after_selects
  after_selects-suc k s h = ap (after_selects k now provider q) (advance-select s h)

  -- After `k` selections the cursor has moved by `k`, and the shortlist is the same.
  after_selects_lem :
      (k : ℕ) (s : Store)
      → 0 < length (shortlist now provider q s)
      → cursor_of s provider + k < rotation_limit
      → (cursor_of (after_selects k now provider q s) provider ≡ cursor_of s provider + k)
        × (shortlist now provider q (after_selects k now provider q s) ≡ shortlist now provider q s)
  after_selects_lem zero s h fits = unfold after_selects in (omega arith, refl)
  after_selects_lem (suc k) s h fits =
      let moved : cursor_of (advance provider s) provider ≡ cursor_of s provider + 1 =
        cursor-advance provider s ∙ mod-eq_of_lt (omega arith) in
      let same = shortlist-advance now provider q s in
      let rest = after_selects_lem k (advance provider s) (rw same h) (omega (arith, moved)) in
      let step = after_selects-suc k s h in
      (
        ap (λ (t : Store). cursor_of t provider) step ∙ omega (arith, rest.0, moved),
        ap (shortlist now provider q) step ∙ rest.1 ∙ same,
      )

-- The number of turns from cursor `c` to position `i` of `n`.
turns : ℕ → ℕ → ℕ → ℕ
turns c i n = if leb (c % n) i then i - c % n else i + n - c % n

mod_of_sum : (n m i : ℕ) → i < n → (n * m + i) % n ≡ i
mod_of_sum n m i h = mul-add-mod_self_left n m i ∙ mod-eq_of_lt h

turns_mod : (c i n : ℕ) → i < n → (c + turns c i n) % n ≡ i
unfolding turns
turns_mod c i n h =
    let whole = div-add-mod c n in
    let low = mod-lt c {m = n} (omega arith) in
    elim (dec_le (c % n) i) [
      | yes le ↦
          let e : c + (i - c % n) ≡ n * (c / n) + i = omega arith in
          rw (le→leb _ _ le, e) (mod_of_sum n (c / n) i h)
      | no gt ↦
          let e : c + (i + n - c % n) ≡ n * (c / n + 1) + i = omega arith in
          let off : leb (c % n) i ≡ false = ground arith in
          rw (off, e) (mod_of_sum n (c / n + 1) i h)
    ]

turns-lt : (c i n : ℕ) → i < n → turns c i n < n
unfolding turns
turns-lt c i n h = let low = mod-lt c {m = n} (omega arith) in ground arith

-- Fairness: while the accounts, the time and the arguments stay the same, each account of the
-- shortlist is returned by one of the next selections, no later than the shortlist is long, provided
-- that the cursor does not wrap at one million meanwhile.
pub select_fair :
    (now : ℕ) (provider : String) (q : Query) (s : Store) (i : ℕ)
    → i < length (shortlist now provider q s)
    → cursor_of s provider + length (shortlist now provider q s) ≤ rotation_limit
    → (k : ℕ) × (k < length (shortlist now provider q s))
      × ((select now provider q (after_selects k now provider q s)).0
          ≡ get_elem? (shortlist now provider q s) i)
unfolding select
select_fair now provider q s i h fits =
    let xs = shortlist now provider q s in
    let n = length xs in
    let c = cursor_of s provider in
    let k = turns c i n in
    let small = turns-lt c i n h in
    let (moved, same) = after_selects_lem now provider q k s (omega arith) (omega arith) in
    let t = after_selects k now provider q s in
    let at : cursor_of t provider % n ≡ i = rw moved (turns_mod c i n h) in
    (
      k,
      small,
      ap (λ (ys : List Account). (choose provider t ys).0) same
          ∙ result-choose provider t xs
          ∙ ap (get_elem? xs) at,
    )
