-- ===== src/Auth.antt =====
-- app/auth_admin.py: the keys of the admin pages and of the gateway, and the lock after repeated
-- failures. Times are whole seconds, a locked client's deadline is never zero. `hmac.compare_digest`
-- raises a TypeError on texts that are not ASCII.
pub mod Lock
mod Tests
use Prim.Native.Char.{Char, code}
use zcode2api.Prelude.{
  ℕ, ◌+◌, String, Bool, true, false, not, ◌&&◌, Option, none, some, str_eq, ltb, leb, ◌==◌,
  if◌then◌else◌, all, chars, lower, nonempty, truthy, opt_text,
}
use zcode2api.Prelude.Dict
use zcode2api.Prelude.Dict.{Dict}

abbrev pub admin_fail_limit : ℕ
admin_fail_limit = 8

abbrev pub admin_lock_seconds : ℕ
admin_lock_seconds = 300

-- An entry of `_failures`.
pub record Failures : Type 0 where
  pub count : ℕ
  pub locked_until : ℕ

abbrev locked_now : ℕ → Option Failures → Bool
locked_now now none = false
locked_now now (some r) = not (r.locked_until == 0) && ltb now r.locked_until

abbrev expired : ℕ → Option Failures → Bool
expired now none = false
expired now (some r) = not (r.locked_until == 0) && leb r.locked_until now

-- `_is_locked`: a lock that is over is forgotten with its failures.
unfoldable pub is_locked : ℕ → String → Dict Failures → Dict Failures × Bool
is_locked now ip fs =
    if locked_now now (Dict.get ip fs)
    then (fs, true)
    else if expired now (Dict.get ip fs)
    then (Dict.remove ip fs, false)
    else (fs, false)

abbrev more : ℕ → Option Failures → Failures
more now none = record { count = 1; locked_until = 0 }
more now (some r) =
    if leb admin_fail_limit (r.count + 1)
    then record { count = r.count + 1; locked_until = now + admin_lock_seconds }
    else record r { count = r.count + 1 }

-- `_record_failure`
unfoldable pub record_failure : ℕ → String → Dict Failures → Dict Failures
record_failure now ip fs = Dict.put ip (more now (Dict.get ip fs)) fs

-- `authorization.partition(" ")`, without the separator.
partition : String → String × String
partition String.[] = ("", "")
partition (String.◌∷◌ c s) =
    let rest = partition s in if code c == 32 then ("", s) else (String.◌∷◌ c rest.0, rest.1)

-- `_extract_bearer`
unfoldable pub extract_bearer : Option String → Option String
unfolding partition
extract_bearer none = none
extract_bearer (some authorization) =
    let parts = partition authorization in
    if str_eq (lower parts.0) "bearer" && nonempty parts.1 then some parts.1 else none

abbrev is_ascii : String → Bool
is_ascii s = all (λ c. ltb (code c) 128) (chars s)

abbrev pub compare_digest : String → String → Option Bool
compare_digest a b = if is_ascii a && is_ascii b then some (str_eq a b) else none

-- How a check ends.
pub data Verdict : Type 0 where
  accepted too_many_requests unauthorized forbidden type_error : Verdict

abbrev or_key : Option String → Option String → Option String
or_key none key = key
or_key (some token) key = some token

check_admin : ℕ → String → Option String → String → Dict Failures → Dict Failures × Verdict
check_admin now ip none key fs = (record_failure now ip fs, unauthorized)
check_admin now ip (some token) key fs = elim (compare_digest token key) [
  | none ↦ (fs, type_error)
  | some true ↦ (Dict.remove ip fs, accepted)
  | some false ↦ (record_failure now ip fs, unauthorized)
]

-- `verify_admin_key`
unfoldable pub verify_admin_key :
    ℕ → String → Option String → Option String → String → Dict Failures → Dict Failures × Verdict
unfolding check_admin
verify_admin_key now ip authorization app_key key fs =
    let (kept, locked) = is_locked now ip fs in
    if locked
    then (kept, too_many_requests)
    else if not (nonempty key)
    then (kept, unauthorized)
    else check_admin now ip (or_key (extract_bearer authorization) app_key) key kept

check_gateway : Option String → String → Verdict
check_gateway none key = unauthorized
check_gateway (some token) key = elim (compare_digest token key) [
  | none ↦ type_error
  | some true ↦ accepted
  | some false ↦ forbidden
]

-- `verify_gateway_key`: open where no key is set.
unfoldable pub verify_gateway_key : Option String → Option String → String → Verdict
unfolding check_gateway
verify_gateway_key authorization x_api_key key =
    if not (nonempty key)
    then accepted
    else check_gateway (or_key (extract_bearer authorization) x_api_key) key
