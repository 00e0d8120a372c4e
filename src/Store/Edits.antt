-- ===== src/Store/Edits.antt =====
-- app/store.py: what `remove_account`, `update_account` and `set_enabled` leave in the pool and the
-- table.
use mathlib.Core.Path.{subst}
use zcode2api.Prelude.{
  ℕ, ◌≡◌, refl, sym, ap, ◌∙◌, String, Bool, true, false, not, none, some, List, [], ◌∷◌, str_eq,
  if◌then◌else◌, keep_if, find_first, arith, eq_refl, Among, Among-keep_if, Among-keep_if_of, inl,
  inr, map, All, All-Among,
}
use zcode2api.Prelude.Dict.{get-put}
use zcode2api.Account.{Account, is_selectable, selection_exclusion, status_eq, disabled}
use zcode2api.Store.{
  Store, Row, accounts_of, set_accounts, is_called, find, persist_account, delete_account, upsert,
}
use zcode2api.Store.Ops.{remove_account, update_account, set_enabled, switched, switch_first}

-- The pool and the table after `target` was removed from `provider`.
pub record Removed (provider : String) (target : Account) (s s' : Store) : Type 0 where
  pub gone : (a : Account) → Among a (accounts_of s' provider) → str_eq a.id target.id ≡ false
  pub kept :
      (a : Account)
      → Among a (accounts_of s provider)
      → str_eq a.id target.id ≡ false
      → Among a (accounts_of s' provider)
  pub was : (a : Account) → Among a (accounts_of s' provider) → Among a (accounts_of s provider)
  pub no_row : (r : Row) → Among r s'.rows → str_eq r.id target.id ≡ false
  pub rows_kept : (r : Row) → Among r s.rows → str_eq r.id target.id ≡ false → Among r s'.rows
  pub others : (j : String) → str_eq provider j ≡ false → accounts_of s' j ≡ accounts_of s j

accounts_of-set_accounts :
    (s : Store) (p j : String) (l : List Account)
    → accounts_of (set_accounts s p l) j ≡ (if str_eq p j then l else accounts_of s j)
accounts_of-set_accounts s p j l = ground (arith, get-put p j l s.accounts)

accounts_of-own :
    (s : Store) (p : String) (l : List Account) → accounts_of (set_accounts s p l) p ≡ l
accounts_of-own s p l = ground (arith, accounts_of-set_accounts s p p l, eq_refl p)

removed :
    (p : String) (t : Account) (s : Store)
    → Removed p t s (
        delete_account t.id
          (set_accounts s p (keep_if (λ a. not (str_eq a.id t.id)) (accounts_of s p))))
unfolding delete_account
removed p t s =
    let keeps : Account → Bool = λ a. not (str_eq a.id t.id) in
    let keeps_row : Row → Bool = λ r. not (str_eq r.id t.id) in
    let own = accounts_of-own s p (keep_if keeps (accounts_of s p)) in
    record {
      gone = λ a h.
          ground
            (arith, (Among-keep_if keeps (accounts_of s p) a (subst (λ l. Among a l) own h)).0);
      kept = λ a h e.
          subst (λ l. Among a l) (sym own)
            (Among-keep_if_of keeps (accounts_of s p) a (ground arith) h);
      was = λ a h. (Among-keep_if keeps (accounts_of s p) a (subst (λ l. Among a l) own h)).1;
      no_row = λ r h. ground (arith, (Among-keep_if keeps_row s.rows r h).0);
      rows_kept = λ r h e. Among-keep_if_of keeps_row s.rows r (ground arith) h;
      others =
          λ j e. ground (arith, accounts_of-set_accounts s p j (keep_if keeps (accounts_of s p)));
    }

-- Where the pool has an account of that identifier or name, `remove_account` returns `true`, no account
-- of the identifier of the first such is left in the pool and no row of it in the table, and the other
-- accounts, rows and pools stay.
pub remove_account-Removed :
    (p id_or_name : String) (s : Store) (t : Account)
    → find s p id_or_name ≡ some t
    → ((remove_account p id_or_name s).1 ≡ true) × Removed p t s (remove_account p id_or_name s).0
unfolding remove_account find
remove_account-Removed p id_or_name s t h =
    let outcome : Store × Bool = (
      delete_account t.id
          (set_accounts s p (keep_if (λ a. not (str_eq a.id t.id)) (accounts_of s p))),
      true,
    ) in
    let e : remove_account p id_or_name s ≡ outcome = ground arith in
    subst (λ o. (o.1 ≡ true) × Removed p t s o.0) (sym e) (refl, removed p t s)

-- `update_account` does not bring back an account that has left its pool: it then returns `false` and
-- neither the pools nor the table change.
pub update_account-find :
    (a : Account) (s : Store) → find s a.provider a.id ≡ none → update_account a s ≡ (s, false)
unfolding update_account
update_account-find a s h = ground arith

find_first-is_called :
    (x : String) (l : List Account)
    → ((a : Account) → Among a l → is_called x a ≡ false)
    → find_first (is_called x) l ≡ none
find_first-is_called x [] h = refl
find_first-is_called x (a ∷ l) h =
    ground (arith, h a (inl refl), find_first-is_called x l (λ b m. h b (inr m)))

-- A request that still holds an account after `remove_account` removed it cannot write it back, if no
-- account of the pool has its identifier as a name: `update_account` returns `false` and leaves the
-- store.
pub update_account-remove_account :
    (p x : String) (s : Store) (t late : Account)
    → find s p x ≡ some t
    → late.id ≡ t.id
    → late.provider ≡ p
    → All (λ a. str_eq a.name t.id ≡ false) (accounts_of s p)
    → update_account late (remove_account p x s).0 ≡ ((remove_account p x s).0, false)
unfolding find
update_account-remove_account p x s t late h e_id e_p no_name =
    let after = (remove_account p x s).0 in
    let r = remove_account-Removed p x s t h in
    let none_left : (a : Account) → Among a (accounts_of after p) → is_called t.id a ≡ false =
      λ a m. ground (
        arith,
        r.1.gone a m,
        All-Among (λ b. str_eq b.name t.id ≡ false) (accounts_of s p) a no_name (r.1.was a m),
      ) in
    update_account-find late after (
      ap (λ q. find_first (is_called late.id) (accounts_of after q)) e_p
      ∙ ap (λ i. find_first (is_called i) (accounts_of after p)) e_id
      ∙ find_first-is_called t.id (accounts_of after p) none_left)

-- A disabled account is in no selection, whatever else its state is; an enabled one is not `disabled`.
switched-status :
    (a : Account) (now : ℕ)
    → (is_selectable now (switched false a) ≡ false)
      × (status_eq (switched true a).status disabled ≡ false)
unfolding switched is_selectable selection_exclusion
switched-status a now = ground arith

switched-by_flag :
    (on : Bool) (a : Account) (now : ℕ)
    → (if on
        then (status_eq (switched on a).status disabled ≡ false)
        else (is_selectable now (switched on a) ≡ false))
switched-by_flag true a now = (switched-status a now).1
switched-by_flag false a now = (switched-status a now).0

find-switch_first :
    (x : String) (on : Bool) (l : List Account) (a : Account)
    → find_first (is_called x) l ≡ some a
    → Among (switched on a) (switch_first x on l)
find-switch_first x on [] a h = absurd (ground arith)
find-switch_first x on (b ∷ l) a h = ground (arith, find-switch_first x on l a)

rows-persist_account : (a : Account) (l : List Row) → Among a (map (λ r. r.account) (upsert a l))
unfolding upsert
rows-persist_account a [] = inl refl
rows-persist_account a (r ∷ l) = ground (arith, rows-persist_account a l)

-- Where the pool has an account of that identifier or name, `set_enabled` returns `true` and the pool
-- and the table hold the first such with the flag set; disabled, it is in no selection at any time,
-- and enabled, its status is not `disabled`.
pub set_enabled-switched :
    (p x : String) (on : Bool) (s : Store) (a : Account) (now : ℕ)
    → find s p x ≡ some a
    → (let (s', done) = set_enabled p x on s in
        (done ≡ true)
        × Among (switched on a) (accounts_of s' p)
        × Among (switched on a) (map (λ r. r.account) s'.rows)
        × (if on
            then (status_eq (switched on a).status disabled ≡ false)
            else (is_selectable now (switched on a) ≡ false)))
unfolding set_enabled find persist_account
set_enabled-switched p x on s a now h =
    let l = switch_first x on (accounts_of s p) in
    let e : set_enabled p x on s ≡ (persist_account (switched on a) (set_accounts s p l), true) =
      ground arith in
    subst
      (λ o.
        (o.1 ≡ true)
        × Among (switched on a) (accounts_of o.0 p)
        × Among (switched on a) (map (λ r. r.account) o.0.rows)
        × (if on
            then (status_eq (switched on a).status disabled ≡ false)
            else (is_selectable now (switched on a) ≡ false)))
      (sym e)
      (
        refl,
        subst (λ m. Among (switched on a) m) (sym (accounts_of-own s p l))
            (find-switch_first x on (accounts_of s p) a h),
        rows-persist_account (switched on a) s.rows,
        switched-by_flag on a now,
      )
