-- ===== src/Fingerprint/Session/Tests.antt =====
-- A session at a sensor whose codes and clock are given.
use hardware_voltage_interfa.Base.{refl, Bool, true, false, List, [], ◌∷◌, replicate}
use hardware_voltage_interfa.Base.Int.{ℤ, pos, div_ℤ, ◌-ℤ◌, leb_ℤ}
use hardware_voltage_interfa.Fingerprint.LockoutTracker.{
  LockoutTracker, k_none, k_timed, Elapsed, reset, add_failed_attempt, get_mode,
  get_lockout_time_left,
}
use hardware_voltage_interfa.Fingerprint.AuthToken.{HardwareAuthToken, HwAuthToken, ByteOrder}
use hardware_voltage_interfa.Fingerprint.Session.{
  Session, Codes, authenticated, open_session, notify, check_sensor_lockout, check_mode,
  start_lockout_timer,
}
use hardware_voltage_interfa.Fingerprint.Session.Runs.{
  IsReachable, opened, served, receive, perform, timers,
}
use hardware_voltage_interfa.Fingerprint.Session.Lockout.{IsGuarded, IsReachable-IsGuarded}
use hardware_voltage_interfa.Fingerprint.Session.Messages.{
  fail_after, failures, fail_after-failures, IsLockedFor,
}

-- A clock that compares milliseconds.
abbrev since : Elapsed
since now start duration = leb_ℤ (pos duration) (div_ℤ (now -ℤ start) 1000000)

abbrev plain_order : ByteOrder
plain_order = record {
  htobe32 = λ n. n;
  be32toh = λ n. n;
  htobe64 = λ n. n;
  be64toh = λ n. n;
  be32toh-htobe32 = λ n. refl;
  be64toh-htobe64 = λ n. refl;
}

abbrev codes : Codes
codes = record {
  error_hw_unavailable = pos 1;
  error_unable_to_process = pos 2;
  error_timeout = pos 3;
  error_no_space = pos 4;
  error_canceled = pos 5;
  error_unable_to_remove = pos 6;
  error_lockout = pos 7;
  error_vendor_base = pos 1000;
  acquired_good = pos 0;
  acquired_partial = pos 1;
  acquired_insufficient = pos 2;
  acquired_imager_dirty = pos 3;
  acquired_too_slow = pos 4;
  acquired_too_fast = pos 5;
  acquired_vendor_base = pos 1000;
}

abbrev tired : LockoutTracker
tired = record { failed_count = 4; lockout_timed_start = pos 0; current_mode = k_none }

abbrev locked : LockoutTracker
locked = record { failed_count = 5; lockout_timed_start = pos 1000000; current_mode = k_timed }

abbrev no_token : HwAuthToken
no_token = record {
  challenge = 0;
  user_id = 0;
  authenticator_id = 0;
  authenticator_type = 0;
  time_stamp = 0;
  hmac = [];
}

abbrev some_token : HardwareAuthToken
some_token = record {
  challenge = 7;
  user_id = 10;
  authenticator_id = 3;
  authenticator_type = 2;
  time_stamp = 99;
  mac = 1 ∷ 2 ∷ [];
}

abbrev fresh : Session
fresh = record {
  lockout_tracker = reset true tired;
  closed = false;
  is_lockout_timer_started = false;
  is_lockout_timer_aborted = false;
  user_id = pos 10;
  enrollments = [];
}

abbrev nineteen : List (ℤ × ℤ × ℤ × Bool)
nineteen = replicate 19 (pos 5, pos 5, pos 5, true)

-- The session after the fifth failure, with its timer.
abbrev after_five : Session
after_five =
    (perform codes plain_order since
      (receive (pos 1000000) (pos 2000000) (pos 3000000) (authenticated (pos 0) no_token))
      (open_session (pos 10) tired []).0).0

five : IsReachable codes plain_order since after_five 1
unfolding perform open_session notify check_sensor_lockout check_mode start_lockout_timer timers
    add_failed_attempt get_mode get_lockout_time_left div_ℤ ◌-ℤ◌
five =
    served (receive (pos 1000000) (pos 2000000) (pos 3000000) (authenticated (pos 0) no_token))
      (opened (pos 10) tired [])

IsReachable-IsGuarded_example : IsGuarded after_five 1
IsReachable-IsGuarded_example = IsReachable-IsGuarded codes plain_order since after_five 1 five

fail_after-failures_example :
    IsLockedFor
      (fail_after codes plain_order since no_token
        (pos 5, pos 6, pos 7, false)
        (failures codes plain_order since no_token nineteen fresh))
      20
unfolding reset
fail_after-failures_example =
    fail_after-failures codes plain_order since no_token nineteen (pos 5) (pos 6) (pos 7) false
      fresh refl
