-- ===== src/RequestLog/Tests.antt =====
-- Runs of the request log, and its theorems at concrete logs.
use zcode2api.Prelude.{◌≤◌, ◌≡◌, refl, true, none, some, [], length, prefix_of, arith}
use zcode2api.Prelude.Dict
use zcode2api.Prelude.Json
use zcode2api.Prelude.Json.{obj, field, end, int, str, as_nat}
use zcode2api.RequestLog.{
  Log, Request, well, badly, no_usage, keep, begin, mark_account, finish, ended, extract_usage,
}
use zcode2api.RequestLog.Once.{
  finish_once, nothing_more, begins_other, marks_any, begins, Step-keep,
}

program : Unit {0}
unfolding begin mark_account finish ended extract_usage prefix_of Dict.get Dict.put Dict.remove
    Json.get
program = tt

abbrev empty_log : Log
empty_log = record { entries = []; inflight = []; next = 0 }

abbrev request : Request
request = record {
  req_id = "r";
  endpoint = "/v1/messages";
  model = "glm";
  stream = true;
  preview = "hi";
}

-- A count that is no number keeps the one that was known.
keeps_known :
    extract_usage
      (obj (field "input_tokens" (str "7") end))
      (record no_usage { input_tokens = some 5 })
    ≡ record no_usage { input_tokens = some 5 }
unfolding program
keeps_known = refl

one_in_flight : length (begin 10 request empty_log).inflight ≡ 1
unfolding program
one_in_flight = refl

abbrev finished_log : Log
finished_log = (finish 20 "r" (well none none no_usage) (begin 10 request empty_log)).0

-- After the end another request begins, and an account is named for both.
abbrev later_log : Log
later_log =
    mark_account "r" "a" "jwt"
      (mark_account "s" "a" "jwt" (begin 25 (record request { req_id = "s" }) finished_log))

finish_once_example : finish 30 "r" (badly "late" (some 499) none) later_log ≡ (later_log, none)
finish_once_example =
    finish_once 20 30 "r" (well none none no_usage) (badly "late" (some 499) none)
      (begin 10 request empty_log) later_log
      (begins_other 25 (record request { req_id = "s" }) finished_log later_log refl
        (marks_any "s" "a" "jwt" _ later_log
          (marks_any "r" "a" "jwt" _ later_log (nothing_more later_log))))

Step-keep_example : length (begin 10 request empty_log).entries ≤ keep
Step-keep_example =
    Step-keep empty_log (begin 10 request empty_log) (begins 10 request empty_log) (omega arith)
