-- ===== src/Fingerprint/Session.antt =====
-- biometrics/fingerprint/aidl/Session.h and Session.cpp: a session over the legacy HAL.
-- A method returns the new state, and what it calls outside in order: the device, the callbacks and
-- the timer thread. What a device call returns and each clock reading are arguments. The codes of
-- hardware/fingerprint.h are the parameter `Codes`.
pub mod Runs
pub mod Lockout
pub mod Messages
mod Tests
use hardware_voltage_interfa.Base.{
  ℕ, Bool, true, false, not, ◌&&◌, List, [], ◌∷◌, ◌++◌, map, ◌==◌, if◌then◌else◌,
}
use hardware_voltage_interfa.Base.Int.{ℤ, pos, ◌-ℤ◌, leb_ℤ, eq_ℤ}
use hardware_voltage_interfa.Fingerprint.LockoutTracker.{
  LockoutTracker, LockoutMode, k_none, k_timed, k_permanent, Elapsed, reset, add_failed_attempt,
  get_mode, get_lockout_time_left,
}
use hardware_voltage_interfa.Fingerprint.AuthToken.{
  HardwareAuthToken, HwAuthToken, ByteOrder, to_legacy, of_legacy,
}

pub data Error : Type 0 where
  hw_unavailable unable_to_process timeout no_space canceled unable_to_remove vendor : Error

pub data AcquiredInfo : Type 0 where
  good partial insufficient sensor_dirty too_slow too_fast vendor unknown : AcquiredInfo

-- The codes of the legacy HAL that the session names.
pub record Codes : Type 0 where
  pub error_hw_unavailable : ℤ
  pub error_unable_to_process : ℤ
  pub error_timeout : ℤ
  pub error_no_space : ℤ
  pub error_canceled : ℤ
  pub error_unable_to_remove : ℤ
  pub error_lockout : ℤ
  pub error_vendor_base : ℤ
  pub acquired_good : ℤ
  pub acquired_partial : ℤ
  pub acquired_insufficient : ℤ
  pub acquired_imager_dirty : ℤ
  pub acquired_too_slow : ℤ
  pub acquired_too_fast : ℤ
  pub acquired_vendor_base : ℤ

-- What the session calls.
pub data Call : Type 0 where
  dev_set_active_group : ℤ → Call
  dev_pre_enroll dev_post_enroll dev_enumerate dev_get_authenticator_id dev_cancel : Call
  dev_enroll : HwAuthToken → ℤ → ℕ → Call
  dev_authenticate : ℤ → ℤ → Call
  dev_remove : ℤ → ℤ → Call
  on_challenge_generated : ℤ → Call
  on_challenge_revoked : ℤ → Call
  on_error : Error → ℤ → Call
  on_acquired : AcquiredInfo → ℤ → Call
  on_enrollment_progress : ℤ → ℤ → Call
  on_enrollments_removed : List ℤ → Call
  on_enrollments_enumerated : List ℤ → Call
  on_authentication_succeeded : ℤ → HardwareAuthToken → Call
  on_authentication_failed on_lockout_permanent on_lockout_cleared on_session_closed : Call
  on_lockout_timed : ℤ → Call
  on_authenticator_id_retrieved : ℤ → Call
  on_authenticator_id_invalidated : ℤ → Call
  start_timer : ℤ → Call

-- `enrollments` is the static vector of `notify`.
pub record Session : Type 0 where
  pub lockout_tracker : LockoutTracker
  pub closed : Bool
  pub is_lockout_timer_started : Bool
  pub is_lockout_timer_aborted : Bool
  pub user_id : ℤ
  pub enrollments : List ℤ

abbrev pub Effect : Type 0
Effect = Session × List Call

-- The constructor.
unfoldable pub open_session : ℤ → LockoutTracker → List ℤ → Effect
open_session user tracker enrollments = (
  record {
    lockout_tracker = tracker;
    closed = false;
    is_lockout_timer_started = false;
    is_lockout_timer_aborted = false;
    user_id = user;
    enrollments = enrollments;
  },
  dev_set_active_group user ∷ [],
)

unfoldable pub generate_challenge : ℤ → Session → Effect
generate_challenge challenge s = (s, dev_pre_enroll ∷ on_challenge_generated challenge ∷ [])

unfoldable pub revoke_challenge : ℤ → Session → Effect
revoke_challenge challenge s = (s, dev_post_enroll ∷ on_challenge_revoked challenge ∷ [])

abbrev error_of : ℤ → List Call
error_of error = if eq_ℤ error (pos 0) then [] else on_error unable_to_process error ∷ []

-- `old` is what the token's array on the stack held.
unfoldable pub enroll : ByteOrder → HardwareAuthToken → List ℕ → ℤ → Session → Effect
enroll bo hat old error s = (s, dev_enroll (to_legacy bo hat old) s.user_id 60 ∷ error_of error)

unfoldable pub start_lockout_timer : ℤ → Session → Effect
start_lockout_timer left s = (record s { is_lockout_timer_started = true }, start_timer left ∷ [])

-- The branches of `checkSensorLockout` on the mode that `getMode` returned.
unfoldable pub check_mode : LockoutMode → ℤ → Session → Session × List Call × Bool
unfolding start_lockout_timer
check_mode k_permanent now s =
    (record s { is_lockout_timer_aborted = true }, on_lockout_permanent ∷ [], true)
check_mode k_timed now s =
    let left = get_lockout_time_left now s.lockout_tracker in
    if not s.is_lockout_timer_started
    then (
      (start_lockout_timer left s).0,
      on_lockout_timed left ∷ (start_lockout_timer left s).1,
      true,
    )
    else (s, on_lockout_timed left ∷ [], true)
check_mode k_none now s = (s, [], false)

unfoldable pub check_sensor_lockout : Elapsed → ℤ → ℤ → Session → Session × List Call × Bool
unfolding check_mode
check_sensor_lockout elapsed now later s =
    let t = get_mode elapsed now s.lockout_tracker in
    check_mode t.current_mode later (record s { lockout_tracker = t })

unfoldable pub authenticate : Elapsed → ℤ → ℤ → ℤ → ℤ → Session → Effect
authenticate elapsed now later operation error s =
    let (t, calls, _) = check_sensor_lockout elapsed now later s in
    (t, calls ++ dev_authenticate operation t.user_id ∷ error_of error)

unfoldable pub detect_interaction : Session → Effect
detect_interaction s = (s, on_error unable_to_process (pos 0) ∷ [])

unfoldable pub enumerate_enrollments : Session → Effect
enumerate_enrollments s = (s, dev_enumerate ∷ [])

unfoldable pub remove_enrollments : List ℤ → Session → Effect
remove_enrollments ids s = (s, map (λ fid. dev_remove s.user_id fid) ids)

unfoldable pub get_authenticator_id : ℤ → Session → Effect
get_authenticator_id id s = (s, dev_get_authenticator_id ∷ on_authenticator_id_retrieved id ∷ [])

unfoldable pub invalidate_authenticator_id : ℤ → Session → Effect
invalidate_authenticator_id id s =
    (s, dev_get_authenticator_id ∷ on_authenticator_id_invalidated id ∷ [])

unfoldable pub clear_lockout : Bool → Session → Effect
clear_lockout clear s =
    (record s { lockout_tracker = reset clear s.lockout_tracker }, on_lockout_cleared ∷ [])

unfoldable pub reset_lockout : Session → Effect
unfolding clear_lockout
reset_lockout s =
    let (t, calls) = clear_lockout true s in
    (if t.is_lockout_timer_started then record t { is_lockout_timer_aborted = true } else t, calls)

unfoldable pub lockout_timer_expired : Session → Effect
unfolding clear_lockout
lockout_timer_expired s =
    let (t, calls) = if not s.is_lockout_timer_aborted then clear_lockout false s else (s, []) in
    (record t { is_lockout_timer_started = false; is_lockout_timer_aborted = false }, calls)

-- `cancel`: the second result is the service specific error, if the device refuses.
unfoldable pub cancel : ℤ → Session → Session × List Call × ℤ
cancel ret s =
    if eq_ℤ ret (pos 0)
    then (s, dev_cancel ∷ on_error canceled (pos 0) ∷ [], pos 0)
    else (s, dev_cancel ∷ [], ret)

unfoldable pub close : Session → Effect
close s = (record s { closed = true }, on_session_closed ∷ [])

-- `VendorErrorFilter`: the error and `*vendorCode`.
unfoldable pub vendor_error_filter : Codes → ℤ → Error × ℤ
vendor_error_filter c error =
    if eq_ℤ error c.error_hw_unavailable
    then (hw_unavailable, pos 0)
    else if eq_ℤ error c.error_unable_to_process
    then (unable_to_process, pos 0)
    else if eq_ℤ error c.error_timeout
    then (timeout, pos 0)
    else if eq_ℤ error c.error_no_space
    then (no_space, pos 0)
    else if eq_ℤ error c.error_canceled
    then (canceled, pos 0)
    else if eq_ℤ error c.error_unable_to_remove
    then (unable_to_remove, pos 0)
    else if eq_ℤ error c.error_lockout
    then (Error.vendor, c.error_lockout)
    else if leb_ℤ c.error_vendor_base error
    then (Error.vendor, error -ℤ c.error_vendor_base)
    else (unable_to_process, pos 0)

unfoldable pub vendor_acquired_filter : Codes → ℤ → AcquiredInfo × ℤ
vendor_acquired_filter c info =
    if eq_ℤ info c.acquired_good
    then (good, pos 0)
    else if eq_ℤ info c.acquired_partial
    then (partial, pos 0)
    else if eq_ℤ info c.acquired_insufficient
    then (insufficient, pos 0)
    else if eq_ℤ info c.acquired_imager_dirty
    then (sensor_dirty, pos 0)
    else if eq_ℤ info c.acquired_too_slow
    then (too_slow, pos 0)
    else if eq_ℤ info c.acquired_too_fast
    then (too_fast, pos 0)
    else if leb_ℤ c.acquired_vendor_base info
    then (AcquiredInfo.vendor, info -ℤ c.acquired_vendor_base)
    else (unknown, pos 0)

-- `fingerprint_msg_t`, with the fields that `notify` uses.
pub data Message : Type 0 where
  error_msg : ℤ → Message
  acquired_msg : ℤ → Message
  template_enrolling : ℤ → ℤ → Message
  template_removed : ℤ → Message
  authenticated : ℤ → HwAuthToken → Message
  template_enumerating : ℤ → ℕ → Message

unfoldable pub notify : Codes → ByteOrder → Elapsed → ℤ → ℤ → ℤ → Message → Session → Effect
notify c bo elapsed now later last (error_msg error) s =
    let (result, code) = vendor_error_filter c error in (s, on_error result code ∷ [])
notify c bo elapsed now later last (acquired_msg info) s =
    let (result, code) = vendor_acquired_filter c info in (s, on_acquired result code ∷ [])
notify c bo elapsed now later last (template_enrolling fid remaining) s =
    (s, on_enrollment_progress fid remaining ∷ [])
notify c bo elapsed now later last (template_removed fid) s =
    (s, on_enrollments_removed (fid ∷ []) ∷ [])
notify c bo elapsed now later last (authenticated fid hat) s =
    let t = record s { lockout_tracker = add_failed_attempt now s.lockout_tracker } in
    let (u, calls, _) = check_sensor_lockout elapsed later last t in
    if not (eq_ℤ fid (pos 0))
    then (
      record s { lockout_tracker = reset true s.lockout_tracker },
      on_authentication_succeeded fid (of_legacy bo hat) ∷ [],
    )
    else (u, on_authentication_failed ∷ calls)
notify c bo elapsed now later last (template_enumerating fid remaining) s =
    let all = s.enrollments ++ fid ∷ [] in
    if remaining == 0
    then (record s { enrollments = [] }, on_enrollments_enumerated all ∷ [])
    else (record s { enrollments = all }, [])
