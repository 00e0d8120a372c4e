-- ===== src/Egress/Tests.antt =====
-- Runs of the exit policy, and its theorem at a concrete policy.
use zcode2api.Prelude.{
  ◌≡◌, refl, String, Bool, true, Option, none, some, [], ◌∷◌, pos, strip, starts, contains,
}
use zcode2api.Prelude.Dict
use zcode2api.Prelude.Json
use zcode2api.Prelude.Json.{Json, Fields, field, end, str, int, obj, decimal}
use zcode2api.Egress.{Url, managed_port, slot_identity}
use zcode2api.Egress.Policy.{EgressPolicy, binding, mode, parse_policy}
use zcode2api.Egress.Policy.Valid.{PolicyValid, parse_policy-Valid}

-- A reader of the one URL of the tests.
url_of : String → Option Url
url_of s = some (record {
  scheme = "http";
  hostname = "127.0.0.1";
  port = some 21101;
  username = none;
  password = none;
  path = "";
  query = "";
  fragment = "";
})

is_loopback : String → Option Bool
is_loopback host = some true

abbrev node : String
node = "0123456789abcdef0123456789abcdef0123456789abcdef0123456789abcdef"

abbrev saved : Json
saved = obj (
    field "chat_mode" (str "proxy") (
      field "chat_proxy_url" (str "http://127.0.0.1:21101/") (
        field "claim_mode" (str "proxy") (
          field "claim_bindings"
            (obj (
              field "HK"
                (obj (
                  field "port" (int (pos 21101))
                    (field "node_id" (str node) (field "epoch" (int (pos 1)) end))))
                end))
            end))))

abbrev policy : EgressPolicy
policy = record {
  chat_mode = "proxy";
  chat_proxy_url = "http://127.0.0.1:21101";
  claim_mode = "proxy";
  claim_bindings = (record { region = "HK"; port = 21101; node_id = node; epoch = 1 }) ∷ [];
}

program : Unit {0}
unfolding parse_policy mode binding managed_port slot_identity url_of is_loopback strip starts
    contains decimal Dict.get Json.get Json.has
program = tt

chat_mode : mode policy (some "chat") "inherit" ≡ some "proxy"
unfolding program
chat_mode = refl

managed : managed_port url_of (some "http://127.0.0.1:21101") ≡ some 21101
unfolding program
managed = refl

parse_policy-Valid_example : PolicyValid url_of is_loopback policy
unfolding program
parse_policy-Valid_example = parse_policy-Valid url_of is_loopback saved policy refl
