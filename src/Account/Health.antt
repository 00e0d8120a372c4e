-- ===== src/Account/Health.antt =====
-- app/models.py: how the account's status, its deadlines and its quota snapshot decide selection.
use zcode2api.Prelude.{
  ℕ, zero, suc, ◌+◌, ◌-◌, ◌≤◌, ◌<◌, ◌≡◌, ◌↔◌, ◌∙◌, ap, refl, String, Bool, true, false, Option,
  none, some, List, [], ◌∷◌, ◌++◌, arith, length, drop, text_or, if◌then◌else◌, length-append,
  length-drop,
}
use zcode2api.Account.{
  Account, active, Exclusion, quota_exhausted, unknown_unavailability, selection_exclusion,
  is_selectable, effective_status, allows_billing, uses_plan_channel, is_cooling, ban_for_risk,
  record_result, Tick, has_model_quota, model_quota_exclusion, explicitly_supports_model,
  named_window,
}

-- An account is selectable exactly when it is enabled and its effective status is active: the
-- console's status and the scheduler's test agree at every reading of the clock, whatever deadline
-- was stored.
pub is_selectable-effective_status :
    (now : ℕ) (a : Account)
    → (is_selectable now a ≡ true) ↔ ((a.enabled ≡ true) × (effective_status now a ≡ active))
unfolding is_selectable selection_exclusion effective_status
is_selectable-effective_status now a = ground arith

abbrev pub BillingExclusion : Option Exclusion → Type 0
BillingExclusion none = Unit
BillingExclusion (some quota_exhausted) = Unit
BillingExclusion (some unknown_unavailability) = Unit
BillingExclusion (some _) = ⊥

-- Where the billing endpoints may be contacted, the account is selectable, or it is left out only
-- because its quota is used up or because a cooling state has no readable deadline: never because it
-- is switched off, has lost its credential, or is inside a running cooling period.
pub allows_billing-exclusion :
    (now : ℕ) (a : Account)
    → allows_billing now a ≡ true
    → BillingExclusion (selection_exclusion now a)
unfolding allows_billing uses_plan_channel is_cooling selection_exclusion
allows_billing-exclusion now a h = ground arith

pub record IsBanned (a : Account) (b : Account) : Type 0 where
  pub never_selectable : (now : ℕ) → is_selectable now b ≡ false
  pub never_billed : (now : ℕ) → allows_billing now b ≡ false
  pub no_plan_channel : uses_plan_channel b ≡ false
  pub counted : b.risk_strikes ≡ a.risk_strikes + 1
  pub token_kept : b.jwt_token ≡ a.jwt_token
  pub region_kept : b.assigned_region ≡ a.assigned_region

-- After a risk ban the account is never selectable, never billed and off the plan channel at any later
-- time; one strike is counted, and its token and region are kept.
pub ban_for_risk-IsBanned : (a : Account) → IsBanned a (ban_for_risk a)
unfolding ban_for_risk is_selectable selection_exclusion allows_billing uses_plan_channel
ban_for_risk-IsBanned a = record {
  never_selectable = λ now. ground arith;
  never_billed = λ now. ground arith;
  no_plan_channel = ground arith;
  counted = refl;
  token_kept = refl;
  region_kept = refl;
}

drop-append_last {ℓ} :
    {A : Type ℓ} (n : ℕ) (xs : List A) (x : A)
    → n ≤ length xs
    → drop n (xs ++ x ∷ []) ≡ drop n xs ++ x ∷ []
drop-append_last zero xs x h = refl
drop-append_last (suc n) [] x h = elim h [ ]
drop-append_last (suc n) (y ∷ ys) x h = drop-append_last n ys x (omega arith)

pub record Ticked (a b : Account) (now : ℕ) (ok : Bool) (keep : ℕ) : Type 0 where
  pub older : List Tick
  pub newest : Tick
  pub last : b.recent_results ≡ older ++ newest ∷ []
  pub outcome : newest.ok ≡ ok
  pub stamp : newest.at ≡ now
  pub bounded : length b.recent_results ≤ keep
  pub oldest_dropped : older ≡ drop (length a.recent_results + 1 - keep) a.recent_results

-- Recording a result with a positive `keep` puts the new tick last, with its outcome and time; before
-- it stand the older ticks, less as many of the oldest as are over, so never more than `keep` in all.
pub record_result-Ticked :
    (now : ℕ) (ok : Bool) (detail : String) (keep : ℕ) (a : Account)
    → 0 < keep
    → Ticked a (record_result now ok detail keep a) now ok keep
unfolding record_result
record_result-Ticked now ok detail zero a h = elim h [ ]
record_result-Ticked now ok detail (suc k) a h =
    let e : Tick = record {
      ok = ok;
      at = now;
      detail = text_or detail (if ok then "成功" else "失败");
    } in
    let xs = a.recent_results in
    let n = length (xs ++ e ∷ []) - suc k in
    let kept : (record_result now ok detail (suc k) a).recent_results ≡ drop n (xs ++ e ∷ []) =
      ground arith in
    let size : length (xs ++ e ∷ []) ≡ length xs + 1 = length-append xs (e ∷ []) in
    record {
      older = drop n xs;
      newest = e;
      last = kept ∙ drop-append_last n xs e (omega arith);
      outcome = refl;
      stamp = refl;
      bounded = rw kept (omega (arith, length-drop n (xs ++ e ∷ [])));
      oldest_dropped = ap (λ (m : ℕ). drop (m - suc k) xs) size;
    }

-- An account that explicitly supports a model is never excluded for that model's quota.
pub explicitly_supports-has_model_quota :
    (model : Option String) (a : Account)
    → explicitly_supports_model model a ≡ true
    → has_model_quota model a ≡ true
unfolding explicitly_supports_model has_model_quota model_quota_exclusion named_window
explicitly_supports-has_model_quota model a h = ground arith
