-- ===== src/Fingerprint/LockoutTracker.antt =====
-- biometrics/fingerprint/aidl/LockoutTracker.h and LockoutTracker.cpp. The clock is an argument of
-- each call that reads it, in nanoseconds. `Util::hasElapsed` is code of another repository: it is
-- the parameter `Elapsed`, of the clock, a start and a duration in milliseconds.
pub mod Attempts
use hardware_voltage_interfa.Base.{ℕ, ◌+◌, Bool, leb, if◌then◌else◌}
use hardware_voltage_interfa.Base.Int.{ℤ, pos, ◌-ℤ◌, ltb_ℤ, div_ℤ}

pub data LockoutMode : Type 0 where
  k_none k_timed k_permanent : LockoutMode

pub record LockoutTracker : Type 0 where
  pub failed_count : ℕ
  pub lockout_timed_start : ℤ
  pub current_mode : LockoutMode

abbrev pub lockout_timed_threshold : ℕ
lockout_timed_threshold = 5

abbrev pub lockout_timed_duration : ℕ
lockout_timed_duration = 10000

abbrev pub lockout_permanent_threshold : ℕ
lockout_permanent_threshold = 20

abbrev pub Elapsed : Type 0
Elapsed = ℤ → ℤ → ℕ → Bool

-- The constructor sets the counter alone: the start and the mode are what the memory held.
unfoldable pub new : ℤ → LockoutMode → LockoutTracker
new start mode = record { failed_count = 0; lockout_timed_start = start; current_mode = mode }

unfoldable pub reset : Bool → LockoutTracker → LockoutTracker
reset clear t = record {
  failed_count = if clear then 0 else t.failed_count;
  lockout_timed_start = pos 0;
  current_mode = k_none;
}

-- `if (mCurrentMode == LockoutMode::kNone)` of `addFailedAttempt`.
abbrev pub lock_timed : LockoutMode → ℤ → LockoutTracker → LockoutTracker
lock_timed k_none now t = record t { current_mode = k_timed; lockout_timed_start = now }
lock_timed k_timed now t = t
lock_timed k_permanent now t = t

unfoldable pub add_failed_attempt : ℤ → LockoutTracker → LockoutTracker
add_failed_attempt now t =
    let u = record t { failed_count = t.failed_count + 1 } in
    if leb lockout_permanent_threshold u.failed_count
    then record u { current_mode = k_permanent }
    else if leb lockout_timed_threshold u.failed_count
    then lock_timed t.current_mode now u
    else u

abbrev pub expire : LockoutMode → Bool → LockoutTracker → LockoutTracker
expire k_timed elapsed t =
    if elapsed then record t { current_mode = k_none; lockout_timed_start = pos 0 } else t
expire k_none elapsed t = t
expire k_permanent elapsed t = t

-- The new state; the mode that `getMode` returns is its field.
unfoldable pub get_mode : Elapsed → ℤ → LockoutTracker → LockoutTracker
get_mode elapsed now t =
    expire t.current_mode (elapsed now t.lockout_timed_start lockout_timed_duration) t

unfoldable pub get_lockout_time_left : ℤ → LockoutTracker → ℤ
get_lockout_time_left now t =
    if ltb_ℤ (pos 0) t.lockout_timed_start
    then pos lockout_timed_duration -ℤ div_ℤ (now -ℤ t.lockout_timed_start) 1000000
    else pos 0
