-- ===== src/RequestLog/Once.antt =====
-- app/reqlog.py: a request ends once, and the ring keeps its size.
use zcode2api.Prelude.{
  ℕ, ◌-◌, ◌≤◌, ◌≡◌, refl, String, false, Option, none, some, str_eq, List, [], ◌∷◌, ◌++◌, length,
  length-append, length-drop, eq_refl, eq_iff, ◌∙◌, ap, inl, inr, Bool-cases, arith,
}
use zcode2api.Prelude.Dict
use zcode2api.Prelude.Dict.{Dict, get-put, get-remove}
use zcode2api.RequestLog.{
  new_entry, Entry, Log, Request, Ending, keep, begin, append_kept, write, mark_account, finish,
  ended, clear,
}

length-append_kept : (l : List Entry) (e : Entry) → length (append_kept l e) ≤ keep
length-append_kept l e =
    omega (arith, length-drop (length (l ++ e ∷ []) - keep) (l ++ e ∷ []), length-append l (e ∷ []))

length-write : (e : Entry) (l : List Entry) → length (write e l) ≡ length l
length-write e [] = refl
length-write e (x ∷ l) = ground (arith, length-write e l)

-- The steps of the log, at any times.
pub data Step : Log → Log → Type 0 where
  begins : (now : ℕ) (r : Request) (log : Log) → Step log (begin now r log)
  marks :
      (req_id account mode : String) (log : Log) → Step log (mark_account req_id account mode log)
  finishes :
      (now : ℕ) (req_id : String) (e : Ending) (log : Log) → Step log (finish now req_id e log).0
  clears : (log : Log) → Step log (clear log)

-- No step of the log lets the ring hold more than the five hundred entries that it keeps.
pub Step-keep :
    (log log' : Log) → Step log log' → length log.entries ≤ keep → length log'.entries ≤ keep
unfolding begin mark_account finish clear
Step-keep log _ (begins now r _) h = length-append_kept log.entries _
Step-keep log _ (marks req_id account mode _) h =
    elim (Dict.get req_id log.inflight)
      as (λ o.
        (let r : Log = elim o [
          | none ↦ log
          | some e ↦ record log {
            entries = write (record e { account = account; mode = mode }) log.entries;
            inflight = Dict.put req_id (record e { account = account; mode = mode }) log.inflight;
          }
        ] in
          length r.entries ≤ keep)) [
            | none ↦ h
            | some e ↦
                omega
                  (arith, h, length-write (record e { account = account; mode = mode }) log.entries)
          ]
Step-keep log _ (finishes now req_id e _) h =
    elim (Dict.get req_id log.inflight)
      as (λ o.
        (let r : Log × Option Entry = elim o [
          | none ↦ (log, none)
          | some x ↦ (
            record log {
              entries = write (ended now e x) log.entries;
              inflight = Dict.remove req_id log.inflight;
            },
            some (ended now e x),
          )
        ] in
          length r.0.entries ≤ keep)) [
            | none ↦ h
            | some x ↦ omega (arith, h, length-write (ended now e x) log.entries)
          ]
Step-keep log _ (clears _) h = omega arith

-- Steps in which the identifier does not begin.
pub data Later (req_id : String) : Log → Log → Type 0 where
  nothing_more : (log : Log) → Later req_id log log
  begins_other :
      (now : ℕ) (r : Request) (log last : Log)
      → str_eq r.req_id req_id ≡ false
      → Later req_id (begin now r log) last
      → Later req_id log last
  marks_any :
      (other account mode : String) (log last : Log)
      → Later req_id (mark_account other account mode log) last
      → Later req_id log last
  finishes_any :
      (now : ℕ) (other : String) (e : Ending) (log last : Log)
      → Later req_id (finish now other e log).0 last
      → Later req_id log last
  clears_all : (log last : Log) → Later req_id (clear log) last → Later req_id log last

-- Nothing of the identifier is in flight.
abbrev Gone : String → Log → Type 0
Gone req_id log = Dict.get req_id log.inflight ≡ none

begin-Gone :
    (now : ℕ) (r : Request) (log : Log) (req_id : String)
    → str_eq r.req_id req_id ≡ false
    → Gone req_id log
    → Gone req_id (begin now r log)
unfolding begin
begin-Gone now r log req_id ne h =
    get-put r.req_id req_id (new_entry log.next now r) log.inflight ∙ rw ne h

-- An entry that is put back stands where one stood.
put_back :
    (other req_id : String) (old new : Entry) (d : Dict Entry)
    → Dict.get other d ≡ some old
    → Dict.get req_id d ≡ none
    → Dict.get req_id (Dict.put other new d) ≡ none
put_back other req_id old new d e h =
    let apart : str_eq other req_id ≡ false = elim (Bool-cases (str_eq other req_id)) [
      | inl same ↦ absurd (cc (e, h, ap (λ k. Dict.get k d) ((eq_iff other req_id).0 same)))
      | inr ne ↦ ne
    ] in
    get-put other req_id new d ∙ rw apart h

mark_account-Gone :
    (other account mode : String) (log : Log) (req_id : String)
    → Gone req_id log
    → Gone req_id (mark_account other account mode log)
unfolding mark_account
mark_account-Gone other account mode log req_id h = go (Dict.get other log.inflight) refl
  where
    go :
        (o : Option Entry)
        → Dict.get other log.inflight ≡ o
        → (let r : Log = elim o [
          | none ↦ log
          | some e ↦ record log {
            entries = write (record e { account = account; mode = mode }) log.entries;
            inflight = Dict.put other (record e { account = account; mode = mode }) log.inflight;
          }
        ] in
            Gone req_id r)
    go none e = h
    go (some x) e =
        put_back other req_id x (record x { account = account; mode = mode }) log.inflight e h

finish-Gone :
    (now : ℕ) (other : String) (e : Ending) (log : Log) (req_id : String)
    → Gone req_id log
    → Gone req_id (finish now other e log).0
unfolding finish
finish-Gone now other e log req_id h = ground (arith, get-remove other req_id log.inflight)

finished-Gone :
    (now : ℕ) (req_id : String) (e : Ending) (log : Log) → Gone req_id (finish now req_id e log).0
unfolding finish
finished-Gone now req_id e log =
    ground (arith, get-remove req_id req_id log.inflight, eq_refl req_id)

Later-Gone :
    (req_id : String) (log last : Log) → Later req_id log last → Gone req_id log → Gone req_id last
unfolding clear Dict.get
Later-Gone req_id log _ (nothing_more _) h = h
Later-Gone req_id log last (begins_other now r _ _ ne l) h =
    Later-Gone req_id (begin now r log) last l (begin-Gone now r log req_id ne h)
Later-Gone req_id log last (marks_any other account mode _ _ l) h =
    Later-Gone req_id (mark_account other account mode log) last l
      (mark_account-Gone other account mode log req_id h)
Later-Gone req_id log last (finishes_any now other e _ _ l) h =
    Later-Gone req_id (finish now other e log).0 last l (finish-Gone now other e log req_id h)
Later-Gone req_id log last (clears_all _ _ l) h = Later-Gone req_id (clear log) last l refl

-- Once a request has ended, well or badly, no later ending of its identifier changes the log or is
-- persisted: not after any steps of the log, the marking of any account and other requests included,
-- among which the identifier does not begin again.
pub finish_once :
    (now later : ℕ) (req_id : String) (first second : Ending) (log last : Log)
    → Later req_id (finish now req_id first log).0 last
    → finish later req_id second last ≡ (last, none)
unfolding finish
finish_once now later req_id first second log last l =
    let gone : Gone req_id last =
      Later-Gone req_id (finish now req_id first log).0 last l
        (finished-Gone now req_id first log) in
    ground (arith, gone)
