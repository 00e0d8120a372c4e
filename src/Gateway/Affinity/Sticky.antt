-- ===== src/Gateway/Affinity/Sticky.antt =====
-- app/routes/gateway.py: which account a session sticks to, and how many sessions are remembered.
use mathlib.Core.Path.{subst}
use zcode2api.Prelude.{
  ap, sym, ◌⊎◌, inl, inr, is_some, Option-cases, ℕ, ◌-◌, ◌≤◌, ◌≡◌, refl, String, Bool, true, false,
  not, ◌&&◌, Option, none, some, List, [], ◌∷◌, leb, ltb, if◌then◌else◌, keep_if, length,
  length-keep_if-le, member, arith, eq_refl,
}
use zcode2api.Prelude.Dict
use zcode2api.Prelude.Dict.{Dict, length-put-le, length-remove-lt, length-remove-le}
use zcode2api.Account.{Account, is_selectable, has_model_quota}
use zcode2api.Store.{Store, find}
use zcode2api.Gateway.Slots.{in_flight}
use zcode2api.Gateway.Affinity.{
  Bound, is_over, get_sticky_account, bound_to, sticky, oldest, drop_oldest, trim, rebound,
  bind_sticky_account, session_affinity_max_size, session_affinity_ttl,
}

module _ (now : ℕ) (provider : String) (skip_ids : List String) (limit : ℕ) (model : Option String)
    (s : Store) (inflight : Dict ℕ) (is_region_healthy : String → Bool) where
  -- An account that a session may stick to.
  pub record Sticks (key : String) (table : Dict Bound) (a : Account) : Type 0 where
    pub entry : Bound
    pub remembered : Dict.get key table ≡ some entry
    pub current : is_over now entry ≡ false
    pub untried : member entry.account_id skip_ids ≡ false
    pub found : find s provider entry.account_id ≡ some a
    pub selectable : is_selectable now a ≡ true
    pub stocked : has_model_quota model a ≡ true
    pub free : (ltb 0 limit && leb limit (in_flight inflight a.id)) ≡ false

  sticky-some :
      (key : String) (table : Dict Bound) (o : Option Account) (a : Account)
      → (sticky now provider skip_ids limit model s inflight is_region_healthy key table o).1
        ≡ some a
      → (o ≡ some a)
        × (is_selectable now a ≡ true)
        × (has_model_quota model a ≡ true)
        × ((ltb 0 limit && leb limit (in_flight inflight a.id)) ≡ false)
  unfolding sticky
  sticky-some key table none a h = absurd (ground arith)
  sticky-some key table (some b) a h =
      let facts : (is_selectable now b ≡ true)
          × (has_model_quota model b ≡ true)
          × ((ltb 0 limit && leb limit (in_flight inflight b.id)) ≡ false)
          × (b ≡ a) =
        ground (arith, h) in
      let (selectable, stocked, free, same) = facts in
      (
        ap some same,
        subst (λ (x : Account). is_selectable now x ≡ true) same selectable,
        subst (λ (x : Account). has_model_quota model x ≡ true) same stocked,
        subst (λ (x : Account). (ltb 0 limit && leb limit (in_flight inflight x.id)) ≡ false) same
            free,
      )

  bound_to-Sticks :
      (key : String) (table : Dict Bound) (o : Option Bound) (a : Account)
      → Dict.get key table ≡ o
      → (bound_to now provider skip_ids limit model s inflight is_region_healthy key table o).1
        ≡ some a
      → Sticks key table a
  unfolding bound_to
  bound_to-Sticks key table none a e h = absurd (ground arith)
  bound_to-Sticks key table (some b) a e h =
      let facts : (is_over now b ≡ false)
          × (member b.account_id skip_ids ≡ false)
          × ((sticky now provider skip_ids limit model s inflight is_region_healthy key table
                (find s provider b.account_id)).1
              ≡ some a) =
        ground (arith, h) in
      let (current, untried, stuck) = facts in
      let (found, selectable, stocked, free) =
        sticky-some key table (find s provider b.account_id) a stuck in
      record {
        entry = b;
        remembered = e;
        current = current;
        untried = untried;
        found = found;
        selectable = selectable;
        stocked = stocked;
        free = free;
      }

  -- The account that a session sticks to is the one that its entry names and the store still has; the
  -- entry's time and number of requests are not used up, the account was not tried for this request,
  -- may be selected, has quota for the model, and has a slot free.
  pub get_sticky_account-Sticks :
      (key : String) (table : Dict Bound) (a : Account)
      → (get_sticky_account now provider skip_ids limit model s inflight is_region_healthy
          (some key)
          table).1
        ≡ some a
      → Sticks key table a
  unfolding get_sticky_account
  get_sticky_account-Sticks key table a h =
      bound_to-Sticks key table (Dict.get key table) a refl (ground (arith, h))

abbrev holds : String → Dict Bound → Bool
holds key table = is_some (Dict.get key table)

holds_later :
    (x k : String) (b : Bound) (table : Dict Bound)
    → holds x table ≡ true
    → holds x ((k, b) ∷ table) ≡ true
unfolding Dict.get
holds_later x k b table h = ground (arith, h)

holds-oldest_head :
    (k : String) (b : Bound) (table : Dict Bound)
    → (oldest k b.created_at table ≡ k) ⊎ (holds (oldest k b.created_at table) table ≡ true)
    → holds (oldest k b.created_at table) ((k, b) ∷ table) ≡ true
unfolding Dict.get
holds-oldest_head k b table (inl e) =
    subst (λ x. holds x ((k, b) ∷ table) ≡ true) (sym e) (ground (arith, eq_refl k))
holds-oldest_head k b table (inr h) = holds_later (oldest k b.created_at table) k b table h

holds-oldest :
    (key : String) (at : ℕ) (table : Dict Bound)
    → (oldest key at table ≡ key) ⊎ (holds (oldest key at table) table ≡ true)
unfolding oldest Dict.get
holds-oldest key at [] = inl refl
holds-oldest key at ((k, b) ∷ table) =
    elim (ltb b.created_at at)
      as (λ c.
        ((if c then oldest k b.created_at table else oldest key at table) ≡ key)
        ⊎ (holds (if c then oldest k b.created_at table else oldest key at table) ((k, b) ∷ table)
            ≡ true)) [
              | true ↦ inr (holds-oldest_head k b table (holds-oldest k b.created_at table))
              | false ↦ elim (holds-oldest key at table) [
                | inl e ↦ inl e
                | inr e ↦ inr (holds_later (oldest key at table) k b table e)
              ]
            ]

drop_oldest-length : (table : Dict Bound) → length (drop_oldest table) ≤ length table - 1
unfolding drop_oldest
drop_oldest-length [] = omega arith
drop_oldest-length ((k, b) ∷ table) =
    let first = oldest k b.created_at table in
    let here = holds-oldest_head k b table (holds-oldest k b.created_at table) in
    elim (Option-cases (Dict.get first ((k, b) ∷ table))) [
      | inl e ↦ absurd (ground (arith, e, here))
      | inr (v, e) ↦ omega (arith, length-remove-lt first ((k, b) ∷ table) v e)
    ]

-- However many sessions are bound, no more than the maximum are remembered.
pub length-bind_sticky_account :
    (key account_id : String) (now : ℕ) (table : Dict Bound)
    → length table ≤ session_affinity_max_size
    → length (bind_sticky_account now key account_id table) ≤ session_affinity_max_size
unfolding bind_sticky_account trim
length-bind_sticky_account key account_id now table h =
    let added = Dict.put key (rebound now account_id (Dict.get key table)) table in
    let recent : String × Bound → Bool =
      λ e. not (ltb session_affinity_ttl (now - e.1.created_at)) in
    ground (
      arith,
      h,
      length-put-le key (rebound now account_id (Dict.get key table)) table,
      length-keep_if-le recent added,
      drop_oldest-length (keep_if recent added),
    )
