-- ===== src/Store.antt =====
-- app/store.py: the account pools, the rotation cursors and the account table of the database.
-- Each method runs under the store's lock, so it is one step from a state to a state. The identifier,
-- the install token and the clock that a method draws are arguments. The decoding of a JWT's payload
-- (split, base64, `json.loads`) is the parameter `payload_of`: `none` where it raises one of the two
-- errors that `identity` handles.
pub mod Ops
pub mod Select
pub mod Rows
pub mod Dedup
pub mod Edits
mod Tests
use zcode2api.Prelude.{
  ℕ, ◌+◌, ◌%◌, String, Bool, true, false, not, ◌&&◌, ◌||◌, Option, none, some, List, [], ◌∷◌, ◌++◌,
  str_eq, ltb, leb, ◌==◌, if◌then◌else◌, is_none, length, keep_if, find_first, get_elem?, member,
  is_empty, truthy, nonempty, opt_text, strip, or_else,
}
use zcode2api.Prelude.Dict
use zcode2api.Prelude.Dict.{Dict}
use zcode2api.Prelude.Json
use zcode2api.Prelude.Json.{Json, null, obj, str, is_truthy}
use zcode2api.Account.{
  Account, Mode, jwt, api_key, is_jwt, Status, active, disabled, status_eq, Deadline, create,
  secret, Exclusion, region_egress_offline, selection_exclusion, model_quota_exclusion,
  explicitly_supports_model,
}
use zcode2api.Region.{Registry, pick_region}

abbrev pub providers : List String
providers = "zai" ∷ "bigmodel" ∷ []

-- A row of the table `accounts`. `account` is its column `data`, JSON that reads back as it was written.
pub record Row : Type 0 where
  pub id : String
  pub provider : String
  pub created_at : ℕ
  pub account : Account
  pub region : Option String

pub record Store : Type 0 where
  pub accounts : Dict (List Account)
  pub rotation : Dict ℕ
  pub rows : List Row

-- What a method may raise: an unsupported provider, or the payload of a token that is no object.
pub data Outcome {ℓ} (A : Type ℓ) : Type ℓ where
  ok : A → Outcome A
  value_error attribute_error : Outcome A

infixl 5 ◌>>=◌
abbrev pub ◌>>=◌ {ℓ κ} : {A : Type ℓ} {B : Type κ} → Outcome A → (A → Outcome B) → Outcome B
ok a >>= f = f a
value_error >>= f = value_error
attribute_error >>= f = attribute_error

-- `self._accounts.get(provider, [])`
abbrev pub accounts_of : Store → String → List Account
accounts_of s provider = elim (Dict.get provider s.accounts) [ none ↦ [] | some l ↦ l ]

abbrev pub set_accounts : Store → String → List Account → Store
set_accounts s provider l = record s { accounts = Dict.put provider l s.accounts }

-- `list_accounts`; without a provider, those of both in order.
unfoldable pub list_accounts : Store → Option String → List Account
list_accounts s none = accounts_of s "zai" ++ accounts_of s "bigmodel"
list_accounts s (some provider) =
    if nonempty provider
    then accounts_of s provider
    else accounts_of s "zai" ++ accounts_of s "bigmodel"

abbrev pub is_called : String → Account → Bool
is_called id_or_name a = str_eq a.id id_or_name || str_eq a.name id_or_name

-- `_find_locked`, `find`
unfoldable pub find : Store → String → String → Option Account
find s provider id_or_name = find_first (is_called id_or_name) (accounts_of s provider)

-- `find_any`
unfoldable pub find_any : Store → String → Option Account
unfolding list_accounts
find_any s id = find_first (λ a. str_eq a.id id) (list_accounts s none)

-- A JWT's user: `user_id`, or `sub`, if it is a text that is not blank.
user_of : Json → String → String
user_of (str u) token = if nonempty (strip u) then strip u else token
user_of _ token = token

module _ (payload_of : String → Option Json) where
  token_identity : String → Option Json → Outcome (Option String)
  token_identity token none = ok (some token)
  token_identity token (some (obj fs)) =
      ok (some (user_of (Json.or_json (Json.get "user_id" fs) (Json.get "sub" fs)) token))
  token_identity token (some _) = attribute_error

  -- `Account.identity`
  unfoldable pub identity : Account → Outcome (Option String)
  unfolding token_identity user_of
  identity a =
      if not (is_jwt a.mode) || not (nonempty (strip (opt_text a.jwt_token)))
      then ok (secret a)
      else token_identity (strip (opt_text a.jwt_token)) (payload_of (strip (opt_text a.jwt_token)))

  -- The loop of `add_account`: the first account of the pool with the new one's identity. The new
  -- one's is computed only beside an account whose own is not empty.
  unfoldable pub find_same : Account → List Account → Outcome (Option Account)
  find_same new [] = ok none
  find_same new (a ∷ l) =
      let rest = find_same new l in
      do
        mine ← identity a
        if truthy mine
            then (do
              theirs ← identity new
              if str_eq (opt_text mine) (opt_text theirs) && truthy theirs
                  then ok (some a)
                  else rest)
            else rest

-- `_region_distribution`: how many accounts of all pools hold each region.
unfoldable pub count_regions : Dict ℕ → List Account → Dict ℕ
count_regions dist [] = dist
count_regions dist (a ∷ l) =
    count_regions
      (if truthy a.assigned_region
        then (let r = opt_text a.assigned_region in
            Dict.put r (elim (Dict.get r dist) [ none ↦ 1 | some n ↦ n + 1 ]) dist)
        else dist)
      l

unfoldable pub region_distribution : Store → Dict ℕ
unfolding count_regions list_accounts
region_distribution s = count_regions [] (list_accounts s none)

-- `_assign_region`: `none` for a registry that cannot be read. The flag says whether it assigned.
unfoldable pub assign_region : Store → Option Registry → Account → Account × Bool
assign_region s none a = (a, false)
assign_region s (some regions) a =
    if truthy a.assigned_region
    then (a, false)
    else elim (pick_region (region_distribution s) (some regions)) [
      | none ↦ (a, false)
      | some r ↦ (record a { assigned_region = some r }, true)
    ]

-- `_persist_account`: one row to an identifier; a region once written is not erased.
upsert : Account → List Row → List Row
upsert a [] =
    (record {
      id = a.id;
      provider = a.provider;
      created_at = a.created_at;
      account = a;
      region = a.assigned_region;
    })
    ∷ []
upsert a (row ∷ rows) =
    if str_eq row.id a.id
    then (record {
      id = a.id;
      provider = a.provider;
      created_at = a.created_at;
      account = a;
      region = or_else a.assigned_region row.region;
    })
      ∷ rows
    else row ∷ upsert a rows

unfoldable pub persist_account : Account → Store → Store
unfolding upsert
persist_account a s = record s { rows = upsert a s.rows }

-- `_delete_account`
unfoldable pub delete_account : String → Store → Store
delete_account id s = record s { rows = keep_if (λ row. not (str_eq row.id id)) s.rows }
