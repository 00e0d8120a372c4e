-- ===== src/Gateway/Classify/Families.antt =====
-- app/routes/gateway.py: the status that the family of a business code gives.
use mathlib.Core.Path.{subst}
use zcode2api.Prelude.{
  leb, ltb, if◌then◌else◌, ℕ, ◌≤◌, ◌<◌, ◌≡◌, inl, inr, refl, sym, String, Bool, true, false, not,
  ◌||◌, ◌&&◌, Option, none, some, str_eq, arith, Bool-cases, eq_iff, member,
}
use zcode2api.Gateway.Classify.{
  one_of, status_for, exhaust_business_codes, concurrency_limit_business_codes,
  server_error_business_codes, auth_invalid_business_codes, rate_limit_business_codes,
}

abbrev pub is_limited : Option String → Bool
is_limited code =
    one_of code concurrency_limit_business_codes || one_of code rate_limit_business_codes

-- The status that an answer of status `s` gets for a business code.
pub data Family (code : Option String) (s : ℕ) : ℕ → Type 0 where
  exhausted : one_of code exhaust_business_codes ≡ true → Family code s 402
  unauthorized : one_of code auth_invalid_business_codes ≡ true → Family code s 401
  limited : is_limited code ≡ true → Family code s 429
  failed_already : one_of code server_error_business_codes ≡ true → 500 ≤ s → Family code s s
  failed : one_of code server_error_business_codes ≡ true → s < 500 → Family code s 500
  unknown :
      one_of code exhaust_business_codes ≡ false
      → one_of code auth_invalid_business_codes ≡ false
      → is_limited code ≡ false
      → one_of code server_error_business_codes ≡ false
      → 400 ≤ s
      → Family code s s
  unknown_in_success :
      one_of code exhaust_business_codes ≡ false
      → one_of code auth_invalid_business_codes ≡ false
      → is_limited code ≡ false
      → one_of code server_error_business_codes ≡ false
      → s < 400
      → Family code s 400

server_status-Family :
    (code : Option String) (s : ℕ) (b : Bool)
    → one_of code server_error_business_codes ≡ true
    → leb 500 s ≡ b
    → Family code s (if b then s else 500)
server_status-Family code s true v e = failed_already v (ground (arith, e))
server_status-Family code s false v e = failed v (ground (arith, e))

unknown_status-Family :
    (code : Option String) (s : ℕ) (b : Bool)
    → one_of code exhaust_business_codes ≡ false
    → one_of code auth_invalid_business_codes ≡ false
    → is_limited code ≡ false
    → one_of code server_error_business_codes ≡ false
    → ltb s 400 ≡ b
    → Family code s (if b then 400 else s)
unknown_status-Family code s true e a l v h = unknown_in_success e a l v (ground (arith, h))
unknown_status-Family code s false e a l v h = unknown e a l v (ground (arith, h))

pub status_for-Family :
    (code : Option String) (s : ℕ) (exhaust auth concurrency rate server : Bool)
    → one_of code exhaust_business_codes ≡ exhaust
    → one_of code auth_invalid_business_codes ≡ auth
    → one_of code concurrency_limit_business_codes ≡ concurrency
    → one_of code rate_limit_business_codes ≡ rate
    → one_of code server_error_business_codes ≡ server
    → Family code s (status_for s exhaust auth concurrency rate server)
unfolding status_for
status_for-Family code s true auth concurrency rate server e a c r v = exhausted e
status_for-Family code s false true concurrency rate server e a c r v = unauthorized a
status_for-Family code s false false true rate server e a c r v = limited (ground (arith, c))
status_for-Family code s false false false true server e a c r v = limited (ground (arith, c, r))
status_for-Family code s false false false false true e a c r v =
    server_status-Family code s (leb 500 s) v refl
status_for-Family code s false false false false false e a c r v =
    unknown_status-Family code s (ltb s 400) e a (ground (arith, c, r)) v refl

other_codes :
    (code other : String)
    → str_eq code other ≡ true
    → member other exhaust_business_codes ≡ false
    → member other auth_invalid_business_codes ≡ false
    → (member code exhaust_business_codes ≡ false)
      × (member code auth_invalid_business_codes ≡ false)
other_codes code other e x a =
    let same : other ≡ code = sym ((eq_iff code other).0 e) in
    (
      subst (λ c. member c exhaust_business_codes ≡ false) same x,
      subst (λ c. member c auth_invalid_business_codes ≡ false) same a,
    )

-- A limit of concurrency is no exhaustion and no invalid key.
concurrency-only :
    (code : Option String)
    → one_of code concurrency_limit_business_codes ≡ true
    → (one_of code exhaust_business_codes ≡ false)
      × (one_of code auth_invalid_business_codes ≡ false)
concurrency-only none h = absurd (cc)
concurrency-only (some code) h = elim (Bool-cases (str_eq code "3008")) [
  | inl e ↦ other_codes code "3008" e refl refl
  | inr n ↦ elim (Bool-cases (str_eq code "3009")) [
    | inl e ↦ other_codes code "3009" e refl refl
    | inr m ↦ other_codes code "3010" (ground (arith, h, n, m)) refl refl
  ]
]

limit_of :
    (exhaust auth concurrency : Bool)
    → (concurrency ≡ true → (exhaust ≡ false) × (auth ≡ false))
    → (not exhaust && not auth && concurrency) ≡ concurrency
limit_of exhaust auth true h = ground (arith, h refl)
limit_of true auth false h = refl
limit_of false true false h = refl
limit_of false false false h = refl

pub limit_only :
    (code : Option String)
    → (not (one_of code exhaust_business_codes)
        && not (one_of code auth_invalid_business_codes)
        && one_of code concurrency_limit_business_codes)
      ≡ one_of code concurrency_limit_business_codes
limit_only code =
    limit_of (one_of code exhaust_business_codes) (one_of code auth_invalid_business_codes)
      (one_of code concurrency_limit_business_codes) (concurrency-only code)
