-- ===== src/ClientPool/Circuit.antt =====
-- app/client_pool.py: the circuit breaker of one exit: `record_proxy_result`, `is_proxy_quarantined` and
-- what `begin_request` and `end_request` do to it. A missing breaker is `none`, as a missing key of
-- `_circuit_breakers` is. Times are whole seconds; `cooldown` is the setting
-- CAPTCHA_CIRCUIT_BREAKER_COOLDOWN.
pub mod Probe
use zcode2api.Prelude.{
  ℕ, ◌+◌, Bool, true, false, not, ◌&&◌, ◌||◌, Option, none, some, leb, ltb, if◌then◌else◌,
}

pub data State : Type 0 where
  closed opened half_open : State

abbrev pub state_eq : State → State → Bool
state_eq closed closed = true
state_eq opened opened = true
state_eq half_open half_open = true
state_eq _ _ = false

pub record Breaker : Type 0 where
  pub state : State
  pub fails : ℕ
  pub quarantine_until : ℕ
  pub half_open_active : Bool

abbrev pub new_breaker : Breaker
new_breaker = record { state = closed; fails = 0; quarantine_until = 0; half_open_active = false }

abbrev pub threshold : Bool → ℕ
threshold is_waf_block = if is_waf_block then 1 else 3

module _ (cooldown : ℕ) where
  failed : ℕ → Bool → Breaker → Breaker
  failed now is_waf_block st =
      if state_eq st.state half_open
      then record st { state = opened; quarantine_until = now + cooldown; half_open_active = false }
      else if leb (threshold is_waf_block) (st.fails + 1)
      then record st { state = opened; fails = st.fails + 1; quarantine_until = now + cooldown }
      else record st { fails = st.fails + 1 }

  -- The state machine of `record_proxy_result`.
  unfoldable pub recorded : ℕ → Bool → Bool → Breaker → Breaker
  unfolding failed
  recorded now success is_waf_block st =
      if success
      then record { state = closed; fails = 0; quarantine_until = 0; half_open_active = false }
      else failed now is_waf_block st

-- `setdefault`
abbrev pub present : Option Breaker → Breaker
present none = new_breaker
present (some st) = st

quarantined_now : ℕ → Breaker → Bool
quarantined_now now st =
    if state_eq st.state closed
    then false
    else (state_eq st.state opened && ltb now st.quarantine_until)
      || (state_eq st.state half_open && st.half_open_active)

-- `is_proxy_quarantined`
unfoldable pub quarantined : ℕ → Option Breaker → Bool
unfolding quarantined_now
quarantined now none = false
quarantined now (some st) = quarantined_now now st

-- The end of `begin_request`: the breaker, and whether the request is the probe.
unfoldable pub begun : Option Breaker → Option Breaker × Bool
begun none = (none, false)
begun (some st) =
    if state_eq st.state opened || state_eq st.state half_open
    then (some (record st { state = half_open; half_open_active = true }), true)
    else (some st, false)

-- `end_request`; without a result the request only hands its right to probe back.
module _ (cooldown : ℕ) where
  settled : ℕ → Bool → Option Bool → Bool → Option Breaker → Option Breaker
  settled now probe (some success) is_waf_block st =
      some (recorded cooldown now success is_waf_block (present st))
  settled now probe none is_waf_block none = none
  settled now probe none is_waf_block (some st) =
      if probe && state_eq st.state half_open
      then some (record st { half_open_active = false })
      else some st

  abbrev stale : Bool → Option Breaker → Bool
  stale probe none = false
  stale probe (some st) = not (state_eq st.state closed) && not probe

  unfoldable pub ended : ℕ → Bool → Option Bool → Bool → Option Breaker → Option Breaker
  unfolding settled
  ended now probe success is_waf_block st =
      if stale probe st then st else settled now probe success is_waf_block st
