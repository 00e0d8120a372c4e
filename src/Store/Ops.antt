-- ===== src/Store/Ops.antt =====
-- app/store.py: the methods that add, drop and change accounts, and import and export.
use zcode2api.Prelude.{
  ℕ, String, Bool, true, false, not, Option, none, some, List, [], ◌∷◌, ◌++◌, map, str_eq,
  if◌then◌else◌, keep_if, find_first, member,
}
use zcode2api.Prelude.Json.{Json}
use zcode2api.Account.{Account, Mode, active, disabled, status_eq, create, secret}
use zcode2api.Region.{Registry}
use zcode2api.Store.{
  Store, Outcome, ok, value_error, ◌>>=◌, providers, accounts_of, set_accounts, is_called, find,
  find_same, assign_region, persist_account, delete_account,
}

-- `remove_account`
unfoldable pub remove_account : String → String → Store → Store × Bool
remove_account provider id_or_name s =
    elim (find_first (is_called id_or_name) (accounts_of s provider)) [
      | none ↦ (s, false)
      | some target ↦ (
        delete_account target.id (
            set_accounts s provider
              (keep_if (λ a. not (str_eq a.id target.id)) (accounts_of s provider))),
        true,
      )
    ]

-- The pool's objects are shared with the callers; here a caller hands over the state that its object
-- has, and the object of that identifier takes it.
abbrev pub write_back : Account → List Account → List Account
write_back new [] = []
write_back new (a ∷ l) = if str_eq a.id new.id then new ∷ l else a ∷ write_back new l

-- `update_account`: refused once the account has left the pool.
unfoldable pub update_account : Account → Store → Store × Bool
update_account new s = elim (find s new.provider new.id) [
  | none ↦ (s, false)
  | some _ ↦ (
    persist_account new (set_accounts s new.provider (write_back new (accounts_of s new.provider))),
    true,
  )
]

-- `set_enabled` on the account that was found.
unfoldable pub switched : Bool → Account → Account
switched enabled a = record a {
  enabled = enabled;
  status =
      if not enabled then disabled else if status_eq a.status disabled then active else a.status;
}

abbrev pub switch_first : String → Bool → List Account → List Account
switch_first id_or_name enabled [] = []
switch_first id_or_name enabled (a ∷ l) =
    if is_called id_or_name a then switched enabled a ∷ l else a ∷ switch_first id_or_name enabled l

-- `set_enabled`
unfoldable pub set_enabled : String → String → Bool → Store → Store × Bool
unfolding switched
set_enabled provider id_or_name enabled s = elim (find s provider id_or_name) [
  | none ↦ (s, false)
  | some a ↦ (
    persist_account (switched enabled a)
        (set_accounts s provider (switch_first id_or_name enabled (accounts_of s provider))),
    true,
  )
]

-- What one call of `add_account` draws: the identifier, the install token and the clock.
pub record Draw : Type 0 where
  pub id : String
  pub install : String
  pub now : ℕ

module _ (payload_of : String → Option Json) (registry : Option Registry) where
  -- The account with its region and its install token; its fingerprint is not modelled.
  unfoldable pub admitted : Draw → Account → Store → Account
  admitted d a s = record (assign_region s registry a).0 { install_id = some d.install }

  abbrev pub appended : Draw → Account → Store → Store
  appended d a s =
      persist_account (admitted d a s)
        (set_accounts s a.provider (accounts_of s a.provider ++ admitted d a s ∷ []))

  abbrev pub add_new : Draw → Account → Store → Option Account → Outcome (Account × Store)
  add_new d a s (some same) = ok (same, s)
  add_new d a s none = ok (admitted d a s, appended d a s)

  -- `add_account`
  unfoldable pub add_account : Draw → String → String → String → Store → Outcome (Account × Store)
  add_account d provider name secret s = if not (member provider providers) then value_error else do
    same ← find_same payload_of (create d.id d.now provider name secret) (accounts_of s provider)
    add_new d (create d.id d.now provider name secret) s same

-- `export`, without its version and time.
pub record Exported : Type 0 where
  pub name : String
  pub mode : Mode
  pub secret : Option String
  pub region : Option String

exported : Account → Exported
exported a = record { name = a.name; mode = a.mode; secret = secret a; region = a.assigned_region }

unfoldable pub export : Store → List (String × List Exported)
unfolding exported
export s = map (λ p. (p, map exported (accounts_of s p))) providers

-- `save`
persist_all : List Account → Store → Store
persist_all [] s = s
persist_all (a ∷ l) s = persist_all l (persist_account a s)

unfoldable pub save : Store → Store
unfolding persist_all
save s = persist_all (accounts_of s "zai" ++ accounts_of s "bigmodel") s
