-- ===== src/Reset/State.antt =====
-- backend/webserver/auth/PasswordReset.{hpp,cpp}: the state of a process, and `reason`.
-- A clock reading is `none` where the source has a negative number.
use everest_ui.Base.{ℕ, Bool, true, false, not, ◌||◌, [], Option, none, some, if◌then◌else◌, leb}
use everest_ui.Base.Text.{Text}

-- `m_classification`; `unset` is the empty string that it starts with.
pub data Classification : Type 0 where
  unset cold warm invalid : Classification

pub record PasswordReset : Type 0 where
  pub window_seconds : ℕ
  pub start : Option ℕ
  pub boot_id : Text
  pub deadline : ℕ
  pub classification : Classification
  pub pending : Bool
  pub allowed : Bool
  pub enabled : Bool
  pub valid : Bool
  pub process_blocked : Bool

-- The constructor, with the clock's reading.
abbrev pub new_process : ℕ → Option ℕ → PasswordReset
new_process window start = record {
  window_seconds = window;
  start = start;
  boot_id = [];
  deadline = 0;
  classification = unset;
  pending = false;
  allowed = false;
  enabled = false;
  valid = false;
  process_blocked = false;
}

pub data Reason : Type 0 where
  disabled boot_info_invalid warm_boot unavailable_this_boot expired setup_required : Reason

abbrev pub is_invalid : Classification → Bool
is_invalid invalid = true
is_invalid _ = false

abbrev pub is_warm : Classification → Bool
is_warm warm = true
is_warm _ = false

abbrev pub is_cold : Classification → Bool
is_cold cold = true
is_cold _ = false

-- The last tests of `reason`, on the clock's reading.
abbrev pub time_reason : Option ℕ → ℕ → Option Reason
time_reason none deadline = some unavailable_this_boot
time_reason (some now) deadline = if leb deadline now then some expired else none

-- `none` is the empty text: a reset is available.
unfoldable pub reason : Option ℕ → PasswordReset → Option Reason
reason now p =
    if not p.enabled
    then some disabled
    else if is_invalid p.classification
    then some boot_info_invalid
    else if is_warm p.classification
    then some warm_boot
    else if p.process_blocked || not p.valid || not p.allowed || p.pending
    then some unavailable_this_boot
    else time_reason now p.deadline
