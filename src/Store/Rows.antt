-- ===== src/Store/Rows.antt =====
-- app/store.py: the account table, and what a restart reads back from it (`_load`).
pub mod Restart
use zcode2api.Prelude.{
  ℕ, ◌+◌, ◌≤◌, ◌≡◌, ◌≢◌, ◌⊎◌, inl, inr, refl, sym, ap, ◌∙◌, String, Bool, true, false, not, Option,
  none, some, List, [], ◌∷◌, ◌++◌, str_eq, if◌then◌else◌, leb, member, truthy, or_else, arith,
  eq_iff, eq_refl, Among, keep_if, Among-append_left, Among-append_right, Bool-cases, is_some,
}
use zcode2api.Prelude.Dict
use zcode2api.Prelude.Dict.{Dict, get-put}
use zcode2api.Account.{Account}
use zcode2api.Store.{
  Store, Row, providers, accounts_of, set_accounts, upsert, persist_account, delete_account,
}

-- `SELECT … WHERE id = ?`
unfoldable pub row_of : String → List Row → Option Row
row_of id [] = none
row_of id (row ∷ rows) = if str_eq row.id id then some row else row_of id rows

-- `row["assigned_region"]` wins over the region inside the JSON.
unfoldable pub restored : Row → Account
restored row =
    if truthy row.region then record row.account { assigned_region = row.region } else row.account

-- `ORDER BY created_at ASC`
unfoldable pub insert_row : Row → List Row → List Row
insert_row row [] = row ∷ []
insert_row row (r ∷ rs) =
    if leb row.created_at r.created_at then row ∷ r ∷ rs else r ∷ insert_row row rs

unfoldable pub by_age : List Row → List Row
unfolding insert_row
by_age [] = []
by_age (row ∷ rows) = insert_row row (by_age rows)

-- A row goes to the pool of its account's provider; one of an unknown provider is left out.
unfoldable pub load_row : Row → Store → Store
unfolding restored
load_row row s =
    let a = restored row in
    if member a.provider providers
    then set_accounts s a.provider (accounts_of s a.provider ++ a ∷ [])
    else s

unfoldable pub load_rows : List Row → Store → Store
load_rows [] s = s
load_rows (row ∷ rows) s = load_rows rows (load_row row s)

-- `_load`: the pools as a new process finds them; the cursors start at zero.
unfoldable pub load : List Row → Store
unfolding by_age load_rows load_row
load rows = load_rows (by_age rows) (record {
  accounts = ("zai", []) ∷ ("bigmodel", []) ∷ [];
  rotation = ("zai", 0) ∷ ("bigmodel", 0) ∷ [];
  rows = rows;
})

-- The row that `persist_account` leaves for the account.
abbrev pub written : Account → Option Row → Row
written a old = record {
  id = a.id;
  provider = a.provider;
  created_at = a.created_at;
  account = a;
  region = or_else a.assigned_region (elim old [ none ↦ none | some row ↦ row.region ]);
}

row_of-upsert :
    (a : Account) (id : String) (rows : List Row)
    → row_of id (upsert a rows)
      ≡ (if str_eq a.id id then some (written a (row_of a.id rows)) else row_of id rows)
unfolding upsert row_of
row_of-upsert a id [] = ground arith
row_of-upsert a id (row ∷ rows) = ground (
  arith,
  row_of-upsert a id rows,
  eq_iff a.id id,
  eq_iff row.id id,
  eq_iff row.id a.id,
  eq_iff id a.id,
)

-- After a write, the account's row is the account with its old region where it has none itself, and
-- the row of every other identifier is as it was.
pub row_of-persist_account :
    (a : Account) (s : Store) (id : String)
    → row_of id (persist_account a s).rows
      ≡ (if str_eq a.id id then some (written a (row_of a.id s.rows)) else row_of id s.rows)
unfolding persist_account
row_of-persist_account a s id = row_of-upsert a id s.rows

row_of-keep_if :
    (id j : String) (rows : List Row)
    → row_of j (keep_if (λ row. not (str_eq row.id id)) rows)
      ≡ (if str_eq id j then none else row_of j rows)
unfolding row_of
row_of-keep_if id j [] = ground arith
row_of-keep_if id j (row ∷ rows) =
    ground (arith, row_of-keep_if id j rows, eq_iff id j, eq_iff row.id j, eq_iff row.id id)

-- After a deletion the identifier has no row, and the others keep theirs.
pub row_of-delete_account :
    (id j : String) (s : Store)
    → row_of j (delete_account id s).rows ≡ (if str_eq id j then none else row_of j s.rows)
unfolding delete_account
row_of-delete_account id j s = row_of-keep_if id j s.rows

abbrev pub region_of : Option Row → Option String
region_of none = none
region_of (some row) = row.region

abbrev persist_each : List Account → Store → Store
persist_each [] s = s
persist_each (a ∷ l) s = persist_each l (persist_account a s)

keeps_region :
    (a : Account) (s : Store) (id : String)
    → is_some (region_of (row_of id s.rows)) ≡ true
    → is_some (region_of (row_of id (persist_account a s).rows)) ≡ true
keeps_region a s id h = rw (row_of-persist_account a s id) (ground (arith, eq_iff a.id id))

-- A region once written is never erased by later writes, whichever accounts are written and whatever
-- region they bear.
pub persist_each-region :
    (l : List Account) (s : Store) (id : String)
    → is_some (region_of (row_of id s.rows)) ≡ true
    → is_some (region_of (row_of id (persist_each l s).rows)) ≡ true
persist_each-region [] s id h = h
persist_each-region (a ∷ l) s id h =
    persist_each-region l (persist_account a s) id (keeps_region a s id h)
