-- ===== src/Store/Rows/Restart.antt =====
-- app/store.py: an account that was written is read back into its pool by the next process.
use mathlib.Core.Path.{subst}
use zcode2api.Prelude.{
  ◌≡◌, ◌⊎◌, inl, inr, refl, ◌∙◌, String, Bool, true, false, none, Option, or_else, truthy, some,
  List, [], ◌∷◌, ◌++◌, str_eq, if◌then◌else◌, member, arith, eq_iff, eq_refl, Among,
  Among-append_left, Among-append_right, Bool-cases,
}
use zcode2api.Prelude.Dict.{get-put}
use zcode2api.Account.{Account}
use zcode2api.Store.{Store, Row, providers, accounts_of, set_accounts, persist_account}
use zcode2api.Store.Rows.{
  row_of, restored, insert_row, by_age, load_row, load_rows, load, written, region_of,
  row_of-persist_account,
}

Among-insert_row :
    (row r : Row) (rows : List Row) → (r ≡ row) ⊎ Among r rows → Among r (insert_row row rows)
unfolding insert_row
Among-insert_row row r [] h = h
Among-insert_row row r (x ∷ xs) h = ground (arith, Among-insert_row row r xs)

Among-by_age : (r : Row) (rows : List Row) → Among r rows → Among r (by_age rows)
unfolding by_age
Among-by_age r [] h = h
Among-by_age r (row ∷ rows) (inl e) = Among-insert_row row r (by_age rows) (inl e)
Among-by_age r (row ∷ rows) (inr m) =
    Among-insert_row row r (by_age rows) (inr (Among-by_age r rows m))

row_of-Among :
    (id : String) (row : Row) (rows : List Row) → row_of id rows ≡ some row → Among row rows
unfolding row_of
row_of-Among id row [] h = absurd (cc)
row_of-Among id row (r ∷ rs) h = ground (arith, row_of-Among id row rs)

pool_of :
    (s : Store) (p q : String) (l : List Account)
    → accounts_of (set_accounts s p l) q ≡ (if str_eq p q then l else accounts_of s q)
pool_of s p q l = ground (arith, get-put p q l s.accounts)

load_row-Among :
    (row : Row) (s : Store) (p : String) (a : Account)
    → Among a (accounts_of s p)
    → Among a (accounts_of (load_row row s) p)
unfolding load_row
load_row-Among row s p a m =
    let b = restored row in
    let l = accounts_of s b.provider ++ b ∷ [] in
    elim (Bool-cases (member b.provider providers)) [
      | inr e ↦ rw e m
      | inl e ↦
          rw (e, pool_of s b.provider p l)
            (elim (Bool-cases (str_eq b.provider p)) [
              | inr ne ↦ rw ne m
              | inl eq ↦
                  let same = (eq_iff b.provider p).0 eq in
                  rw eq (Among-append_left (accounts_of s b.provider) (b ∷ []) a (rw same m))
            ])
    ]

load_rows-Among :
    (rows : List Row) (s : Store) (p : String) (a : Account)
    → Among a (accounts_of s p)
    → Among a (accounts_of (load_rows rows s) p)
unfolding load_rows
load_rows-Among [] s p a m = m
load_rows-Among (row ∷ rows) s p a m =
    load_rows-Among rows (load_row row s) p a (load_row-Among row s p a m)

load_row_adds :
    (row : Row) (s : Store)
    → member (restored row).provider providers ≡ true
    → Among (restored row) (accounts_of (load_row row s) (restored row).provider)
unfolding load_row
load_row_adds row s known =
    let b = restored row in
    let l = accounts_of s b.provider ++ b ∷ [] in
    rw (known, pool_of s b.provider b.provider l, eq_refl)
      (Among-append_right (accounts_of s b.provider) (b ∷ []) b (inl refl))

load_rows_adds :
    (row : Row) (rows : List Row) (s : Store)
    → member (restored row).provider providers ≡ true
    → Among row rows
    → Among (restored row) (accounts_of (load_rows rows s) (restored row).provider)
unfolding load_rows
load_rows_adds row [] s known m = absurd m
load_rows_adds row (r ∷ rs) s known (inl e) =
    load_rows-Among rs (load_row r s) (restored row).provider (restored row) (
      subst (λ (x : Row). Among (restored row) (accounts_of (load_row x s) (restored row).provider))
        e (load_row_adds row s known))
load_rows_adds row (r ∷ rs) s known (inr m) = load_rows_adds row rs (load_row r s) known m

provider-restored : (row : Row) → (restored row).provider ≡ row.account.provider
unfolding restored
provider-restored row = ground arith

-- The account that is read back: the one written but for its region, which is the one written, or where
-- there is none the row's older one, unless that is blank.
pub record ReadBack (a : Account) (older : Option Row) (b : Account) : Type 0 where
  pub same : record b { assigned_region = a.assigned_region } ≡ a
  pub region :
      b.assigned_region
      ≡ or_else a.assigned_region (if truthy (region_of older) then region_of older else none)

region_back :
    (a : Account) (r : Option String) (b : Bool)
    → (let c : Account = if b then record a { assigned_region = r } else a in
        record c { assigned_region = a.assigned_region } ≡ a)
region_back a r true = refl
region_back a r false = refl

restored-ReadBack :
    (a : Account) (older : Option Row) → ReadBack a older (restored (written a older))
unfolding restored
restored-ReadBack a older = record {
  same = region_back a _ (truthy (written a older).region);
  region = ground arith;
}

-- A restart after a write finds the account in its provider's pool: as it was written, but for its region,
-- which is the one written, or the row's older one where the account has none and that is not blank. The
-- JSON of the row's data is taken to read back as the account that it was written from.
pub load-persist_account :
    (a : Account) (s : Store)
    → member a.provider providers ≡ true
    → (b : Account) × ReadBack a (row_of a.id s.rows) b
      × Among b (accounts_of (load (persist_account a s).rows) a.provider)
unfolding load
load-persist_account a s known =
    let rows = (persist_account a s).rows in
    let row = written a (row_of a.id s.rows) in
    let found : row_of a.id rows ≡ some row = row_of-persist_account a s a.id ∙ rw eq_refl in
    let here = Among-by_age row rows (row_of-Among a.id row rows found) in
    let same = provider-restored row in
    (
      restored row,
      restored-ReadBack a (row_of a.id s.rows),
      subst (λ (p : String). Among (restored row) (accounts_of (load rows) p)) same
          (load_rows_adds row (by_age rows) _ (rw same known) here),
    )
