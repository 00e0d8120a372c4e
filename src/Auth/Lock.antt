-- ===== src/Auth/Lock.antt =====
-- app/auth_admin.py: who gets in, and who is locked out for how long.
use zcode2api.Prelude.{
  ℕ, ◌+◌, ◌≤◌, ◌<◌, ◌≡◌, ap, ◌∙◌, String, true, false, Option, none, some, str_eq, nonempty, arith,
  eq_iff, eq_refl,
}
use zcode2api.Prelude.Dict
use zcode2api.Prelude.Dict.{Dict, get-put, get-remove}
use zcode2api.Auth.{
  Failures, accepted, too_many_requests, is_locked, record_failure, extract_bearer, or_key,
  verify_admin_key, verify_gateway_key, check_admin, check_gateway, more, locked_now,
}

-- The credentials that a request presents.
abbrev pub presented : Option String → Option String → Option String
presented authorization key = or_key (extract_bearer authorization) key

locked_now-is_locked :
    (now : ℕ) (ip : String) (fs : Dict Failures)
    → (is_locked now ip fs).1 ≡ locked_now now (Dict.get ip fs)
unfolding is_locked
locked_now-is_locked now ip fs = ground arith

check_admin-accepted :
    (now : ℕ) (ip : String) (token : Option String) (key : String) (fs : Dict Failures)
    → (check_admin now ip token key fs).1 ≡ accepted
    → token ≡ some key
unfolding check_admin
check_admin-accepted now ip none key fs h = absurd (ground arith)
check_admin-accepted now ip (some token) key fs h = ground (arith, eq_iff token key)

check_admin-forgets :
    (now : ℕ) (ip : String) (token : Option String) (key : String) (fs : Dict Failures)
    → (check_admin now ip token key fs).1 ≡ accepted
    → Dict.get ip (check_admin now ip token key fs).0 ≡ none
unfolding check_admin
check_admin-forgets now ip none key fs h = absurd (ground arith)
check_admin-forgets now ip (some token) key fs h =
    ground (arith, h, get-remove ip ip fs, eq_refl ip)

is_locked-other :
    (now : ℕ) (ip other : String) (fs : Dict Failures)
    → str_eq ip other ≡ false
    → Dict.get other (is_locked now ip fs).0 ≡ Dict.get other fs
unfolding is_locked
is_locked-other now ip other fs h = ground (arith, h, get-remove ip other fs)

check_admin-other :
    (now : ℕ) (ip other : String) (token : Option String) (key : String) (fs : Dict Failures)
    → str_eq ip other ≡ false
    → Dict.get other (check_admin now ip token key fs).0 ≡ Dict.get other fs
unfolding check_admin record_failure
check_admin-other now ip other none key fs h =
    ground (arith, h, get-put ip other (more now (Dict.get ip fs)) fs)
check_admin-other now ip other (some token) key fs h =
    ground (arith, h, get-put ip other (more now (Dict.get ip fs)) fs, get-remove ip other fs)

-- `verify_admin_key` lets a request in only with the configured key, only where one is configured, and
-- never while its client is locked; it then forgets the client's failures.
pub verify_admin_key-accepted :
    (now : ℕ) (ip : String) (authorization app_key : Option String) (key : String)
    (fs : Dict Failures)
    → (verify_admin_key now ip authorization app_key key fs).1 ≡ accepted
    → (presented authorization app_key ≡ some key)
      × (nonempty key ≡ true)
      × ((is_locked now ip fs).1 ≡ false)
      × (Dict.get ip (verify_admin_key now ip authorization app_key key fs).0 ≡ none)
unfolding verify_admin_key
verify_admin_key-accepted now ip authorization app_key key fs h =
    let kept = (is_locked now ip fs).0 in
    let token = presented authorization app_key in
    let facts : ((is_locked now ip fs).1 ≡ false)
        × (nonempty key ≡ true)
        × ((check_admin now ip token key kept).1 ≡ accepted)
        × (verify_admin_key now ip authorization app_key key fs
            ≡ check_admin now ip token key kept) =
      ground (arith, h) in
    let (unlocked, named, checked, same) = facts in
    (
      check_admin-accepted now ip token key kept checked,
      named,
      unlocked,
      ap (λ r. Dict.get ip r.0) same ∙ check_admin-forgets now ip token key kept checked,
    )

-- A client whose failure is its eighth or later, none of them forgotten, is refused for the next three
-- hundred seconds, whatever it presents.
pub verify_admin_key-locked :
    (now later : ℕ) (ip : String) (fs : Dict Failures) (r : Failures)
    (authorization app_key : Option String) (key : String)
    → Dict.get ip fs ≡ some r
    → 7 ≤ r.count
    → later < now + 300
    → verify_admin_key later ip authorization app_key key (record_failure now ip fs)
      ≡ (record_failure now ip fs, too_many_requests)
unfolding verify_admin_key is_locked record_failure
verify_admin_key-locked now later ip fs r authorization app_key key h c l =
    let got : Dict.get ip (record_failure now ip fs)
        ≡ some (record { count = r.count + 1; locked_until = now + 300 }) =
      ground (arith, get-put ip ip (more now (Dict.get ip fs)) fs, eq_refl ip, h, c) in
    ground (arith, got, l)

-- A check of one client leaves what is known of every other.
pub verify_admin_key-other :
    (now : ℕ) (ip other : String) (authorization app_key : Option String) (key : String)
    (fs : Dict Failures)
    → str_eq ip other ≡ false
    → Dict.get other (verify_admin_key now ip authorization app_key key fs).0 ≡ Dict.get other fs
unfolding verify_admin_key
verify_admin_key-other now ip other authorization app_key key fs h =
    let token = presented authorization app_key in
    let kept = (is_locked now ip fs).0 in
    ground
      (arith, is_locked-other now ip other fs h, check_admin-other now ip other token key kept h)

check_gateway-accepted :
    (token : Option String) (key : String) → check_gateway token key ≡ accepted → token ≡ some key
unfolding check_gateway
check_gateway-accepted none key h = absurd (ground arith)
check_gateway-accepted (some token) key h = ground (arith, eq_iff token key)

-- Where a gateway key is configured, `verify_gateway_key` lets a request in only with that key.
pub verify_gateway_key-accepted :
    (authorization x_api_key : Option String) (key : String)
    → nonempty key ≡ true
    → verify_gateway_key authorization x_api_key key ≡ accepted
    → presented authorization x_api_key ≡ some key
unfolding verify_gateway_key
verify_gateway_key-accepted authorization x_api_key key n h =
    check_gateway-accepted (presented authorization x_api_key) key (ground (arith, n, h))
