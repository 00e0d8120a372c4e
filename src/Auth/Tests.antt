-- ===== src/Auth/Tests.antt =====
-- Runs of the key checks, and their theorems at concrete requests.
use zcode2api.Prelude.{◌≡◌, refl, true, false, none, some, [], ◌∷◌, nonempty, arith, lower}
use zcode2api.Prelude.Dict
use zcode2api.Prelude.Dict.{Dict}
use zcode2api.Auth.{
  Failures, too_many_requests, type_error, is_locked, record_failure, extract_bearer,
  verify_admin_key, verify_gateway_key,
}
use zcode2api.Auth.Lock.{
  presented, verify_admin_key-accepted, verify_admin_key-locked, verify_admin_key-other,
  verify_gateway_key-accepted,
}

program : Unit {0}
unfolding is_locked record_failure extract_bearer verify_admin_key verify_gateway_key lower Dict.get
    Dict.put Dict.remove
program = tt

abbrev seven : Dict Failures
seven = ("10.0.0.1", record { count = 7; locked_until = 0 }) ∷ []

bearer : extract_bearer (some "Bearer key") ≡ some "key"
unfolding program
bearer = refl

-- A key that is not ASCII makes the check raise, whatever key is configured.
raises : (verify_admin_key 5 "10.0.0.1" none (some "é") "key" seven).1 ≡ type_error
unfolding program
raises = refl

verify_admin_key-accepted_example :
    (presented (some "Bearer key") none ≡ some "key")
    × (nonempty "key" ≡ true)
    × ((is_locked 5 "10.0.0.1" seven).1 ≡ false)
    × (Dict.get "10.0.0.1" (verify_admin_key 5 "10.0.0.1" (some "Bearer key") none "key" seven).0
        ≡ none)
unfolding program
verify_admin_key-accepted_example =
    verify_admin_key-accepted 5 "10.0.0.1" (some "Bearer key") none "key" seven refl

verify_admin_key-locked_example :
    verify_admin_key 200 "10.0.0.1"
      (some "Bearer key")
      none
      "key"
      (record_failure 5 "10.0.0.1" seven)
    ≡ (record_failure 5 "10.0.0.1" seven, too_many_requests)
unfolding program
verify_admin_key-locked_example =
    verify_admin_key-locked 5 200 "10.0.0.1" seven (record { count = 7; locked_until = 0 })
      (some "Bearer key") none "key" refl (omega arith) (omega arith)

verify_admin_key-other_example :
    Dict.get "10.0.0.1" (verify_admin_key 5 "10.0.0.2" none none "key" seven).0
    ≡ Dict.get "10.0.0.1" seven
unfolding program
verify_admin_key-other_example =
    verify_admin_key-other 5 "10.0.0.2" "10.0.0.1" none none "key" seven refl

verify_gateway_key-accepted_example : presented none (some "key") ≡ some "key"
unfolding program
verify_gateway_key-accepted_example = verify_gateway_key-accepted none (some "key") "key" refl refl
