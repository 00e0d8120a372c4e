-- ===== src/RequestLog.antt =====
-- app/reqlog.py: the ring of the latest requests and the table of those in flight. An entry is one object
-- that both hold, here two copies with one serial number, which every change writes together. Each
-- function holds the lock, so it is one step; the entry that is handed to `evidence.record_request` is
-- part of the result.
pub mod Once
mod Tests
use zcode2api.Prelude.{
  ℕ, suc, ◌+◌, ◌-◌, String, Bool, true, false, Option, none, some, List, [], ◌∷◌, ◌++◌, ◌==◌,
  if◌then◌else◌, length, drop, prefix_of,
}
use zcode2api.Prelude.Dict
use zcode2api.Prelude.Dict.{Dict}
use zcode2api.Prelude.Json
use zcode2api.Prelude.Json.{Json, get_in, as_nat}

-- `KEEP`
abbrev pub keep : ℕ
keep = 500

-- The four counts of `extract_usage`.
pub record Usage : Type 0 where
  pub input_tokens : Option ℕ
  pub output_tokens : Option ℕ
  pub cache_read_input_tokens : Option ℕ
  pub cache_creation_input_tokens : Option ℕ

abbrev pub no_usage : Usage
no_usage = record {
  input_tokens = none;
  output_tokens = none;
  cache_read_input_tokens = none;
  cache_creation_input_tokens = none;
}

abbrev newer : Option ℕ → Option ℕ → Option ℕ
newer none old = old
newer (some n) old = some n

-- `extract_usage`: a count that is missing or no count keeps what was known before.
unfoldable pub extract_usage : Json → Usage → Usage
extract_usage usage previous = record {
  input_tokens = newer (as_nat (get_in "input_tokens" usage)) previous.input_tokens;
  output_tokens = newer (as_nat (get_in "output_tokens" usage)) previous.output_tokens;
  cache_read_input_tokens =
      newer (as_nat (get_in "cache_read_input_tokens" usage)) previous.cache_read_input_tokens;
  cache_creation_input_tokens =
      newer (as_nat (get_in "cache_creation_input_tokens" usage))
        previous.cache_creation_input_tokens;
}

pub record Entry : Type 0 where
  pub serial : ℕ
  pub req_id : String
  pub ts : ℕ
  pub endpoint : String
  pub model : String
  pub stream : Bool
  pub preview : String
  pub account : String
  pub mode : String
  pub ok : Option Bool
  pub status : Option ℕ
  pub error : String
  pub t_first : Option ℕ
  pub t_total : Option ℕ
  pub usage : Usage

-- `entries` is the ring, oldest first; `next` numbers the entries.
pub record Log : Type 0 where
  pub entries : List Entry
  pub inflight : Dict Entry
  pub next : ℕ

-- `deque(maxlen=KEEP).append`
abbrev pub append_kept : List Entry → Entry → List Entry
append_kept l e = drop (length (l ++ e ∷ []) - keep) (l ++ e ∷ [])

-- What a request says of itself when it begins.
pub record Request : Type 0 where
  pub req_id : String
  pub endpoint : String
  pub model : String
  pub stream : Bool
  pub preview : String

new_entry : ℕ → ℕ → Request → Entry
new_entry serial now r = record {
  serial = serial;
  req_id = r.req_id;
  ts = now;
  endpoint = r.endpoint;
  model = r.model;
  stream = r.stream;
  preview = prefix_of 80 r.preview;
  account = "";
  mode = "";
  ok = none;
  status = none;
  error = "";
  t_first = none;
  t_total = none;
  usage = no_usage;
}

-- `begin`
unfoldable pub begin : ℕ → Request → Log → Log
unfolding new_entry
begin now r log =
    let entry = new_entry log.next now r in
    record {
      entries = append_kept log.entries entry;
      inflight = Dict.put r.req_id entry log.inflight;
      next = suc log.next;
    }

abbrev write : Entry → List Entry → List Entry
write new [] = []
write new (e ∷ l) = if e.serial == new.serial then new ∷ l else e ∷ write new l

-- `mark_account`
unfoldable pub mark_account : String → String → String → Log → Log
mark_account req_id account mode log = elim (Dict.get req_id log.inflight) [
  | none ↦ log
  | some e ↦
      let new : Entry = record e { account = account; mode = mode } in
      record log { entries = write new log.entries; inflight = Dict.put req_id new log.inflight }
]

-- How a request ends: well, with its counts, or with an error.
pub data Ending : Type 0 where
  well : Option ℕ → Option ℕ → Usage → Ending
  badly : String → Option ℕ → Option ℕ → Ending

abbrev or_200 : Option ℕ → ℕ
or_200 none = 200
or_200 (some s) = if s == 0 then 200 else s

unfoldable pub ended : ℕ → Ending → Entry → Entry
ended now (well t_first status usage) e = record e {
  ok = some true;
  status = some (or_200 status);
  t_first = t_first;
  t_total = some (now - e.ts);
  usage = usage;
}
ended now (badly error status t_first) e = record e {
  ok = some false;
  status = status;
  error = prefix_of 200 error;
  t_first = t_first;
  t_total = some (now - e.ts);
}

-- `finish_ok` and `finish_error`, without the diagnostics of an error; the entry is persisted.
unfoldable pub finish : ℕ → String → Ending → Log → Log × Option Entry
finish now req_id ending log = elim (Dict.get req_id log.inflight) [
  | none ↦ (log, none)
  | some e ↦ (
    record log {
      entries = write (ended now ending e) log.entries;
      inflight = Dict.remove req_id log.inflight;
    },
    some (ended now ending e),
  )
]

-- `clear`
unfoldable pub clear : Log → Log
clear log = record log { entries = []; inflight = [] }
