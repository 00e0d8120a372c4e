-- ===== src/Account/Data.antt =====
-- app/models.py: the data of one pooled account.
-- `fingerprint`, `plan` and `usage` are carried for other parts and no method here reads them, so the
-- record leaves them out. Times are whole seconds of the clock.
use zcode2api.Prelude.{ℕ, String, Bool, true, false, Option, none, some, List, ltb, leb, ℤ}
use zcode2api.Prelude.Dict.{Dict}
use zcode2api.Prelude.Json.{Json}

-- `class Status`
pub data Status : Type 0 where
  active exhausted cooling invalid disabled : Status

abbrev pub status_eq : Status → Status → Bool
status_eq active active = true
status_eq exhausted exhausted = true
status_eq cooling cooling = true
status_eq invalid invalid = true
status_eq disabled disabled = true
status_eq _ _ = false

pub data Mode : Type 0 where
  jwt api_key : Mode

abbrev pub is_jwt : Mode → Bool
is_jwt jwt = true
is_jwt api_key = false

-- A stored deadline. JSON brings back `NaN` and `Infinity` too, which compare as floats do.
pub data Deadline : Type 0 where
  nan inf : Deadline
  at : ℕ → Deadline

-- `now < deadline`
abbrev pub before : ℕ → Deadline → Bool
before now nan = false
before now inf = true
before now (at t) = ltb now t

-- `now >= deadline`
abbrev pub reached : ℕ → Deadline → Bool
reached now nan = false
reached now inf = false
reached now (at t) = leb t now

-- The truth value of an optional deadline: absent and zero are false.
abbrev pub is_set : Option Deadline → Bool
is_set none = false
is_set (some (at t)) = ltb 0 t
is_set (some _) = true

-- One value of the quota snapshot; what is no object is kept as `malformed`.
pub data Window : Type 0 where
  window : (total used : ℤ) (remaining : Option ℤ) (expires_at : Json) → Window
  malformed : Window

-- One tick of `recent_results`.
pub record Tick : Type 0 where
  pub ok : Bool
  pub at : ℕ
  pub detail : String

pub record Account : Type 0 where
  pub id : String
  pub name : String
  pub provider : String
  pub mode : Mode
  pub jwt_token : Option String
  pub key : Option String
  pub enabled : Bool
  pub status : Status
  pub quota : Dict Window
  pub plans : List Json
  pub plan_slots : List Json
  pub claimable_plans : List Json
  pub use_count : ℕ
  pub fail_count : ℕ
  pub risk_strikes : ℕ
  pub recent_results : List Tick
  pub last_used_at : Option ℕ
  pub last_checked_at : Option ℕ
  pub cooling_until : Option Deadline
  pub claim_blocked_until : Option ℕ
  pub last_error : Option String
  pub created_at : ℕ
  pub install_id : Option String
  pub installed_at : Option ℕ
  pub proxy : Option String
  pub assigned_region : Option String
