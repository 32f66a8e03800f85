-- ===== src/Fingerprint/Session/Runs.antt =====
-- Sessions that calls of the service, messages of the device and timer threads lead to.
use hardware_voltage_interfa.Base.{ℕ, suc, ◌+◌, List, [], ◌∷◌}
use hardware_voltage_interfa.Base.Int.{ℤ}
use hardware_voltage_interfa.Fingerprint.LockoutTracker.{LockoutTracker, Elapsed}
use hardware_voltage_interfa.Fingerprint.AuthToken.{HardwareAuthToken, ByteOrder}
use hardware_voltage_interfa.Fingerprint.Session.{
  Session, Effect, Call, start_timer, Codes, Message, open_session, generate_challenge,
  revoke_challenge, enroll, authenticate, detect_interaction, enumerate_enrollments,
  remove_enrollments, get_authenticator_id, invalidate_authenticator_id, reset_lockout, cancel,
  close, notify, lockout_timer_expired,
}

-- The calls of the service and the messages of the device, with what their device calls return and
-- the times of their clock readings.
pub data Request : Type 0 where
  ask_challenge end_challenge ask_id invalidate_id : ℤ → Request
  start_enroll : HardwareAuthToken → List ℕ → ℤ → Request
  start_authenticate : ℤ → ℤ → ℤ → ℤ → Request
  start_detect start_enumerate lift_lockout end_session : Request
  start_remove : List ℤ → Request
  end_operation : ℤ → Request
  receive : ℤ → ℤ → ℤ → Message → Request

module _ (c : Codes) (bo : ByteOrder) (elapsed : Elapsed) where
  unfoldable pub perform : Request → Session → Effect
  perform (ask_challenge n) s = generate_challenge n s
  perform (end_challenge n) s = revoke_challenge n s
  perform (ask_id n) s = get_authenticator_id n s
  perform (invalidate_id n) s = invalidate_authenticator_id n s
  perform (start_enroll hat old error) s = enroll bo hat old error s
  perform (start_authenticate now later operation error) s =
      authenticate elapsed now later operation error s
  perform start_detect s = detect_interaction s
  perform start_enumerate s = enumerate_enrollments s
  perform lift_lockout s = reset_lockout s
  perform end_session s = close s
  perform (start_remove ids) s = remove_enrollments ids s
  perform (end_operation ret) s = let (t, calls, _) = cancel ret s in (t, calls)
  perform (receive now later last m) s = notify c bo elapsed now later last m s

abbrev pub is_start : Call → ℕ
is_start (start_timer left) = 1
is_start _ = 0

-- The timer threads that calls start.
unfoldable pub timers : List Call → ℕ
timers [] = 0
timers (x ∷ xs) = is_start x + timers xs

-- A session with the number of its timer threads that still sleep.
pub data IsReachable (c : Codes) (bo : ByteOrder) (elapsed : Elapsed) : Session → ℕ → Type 0 where
  opened :
      (user : ℤ) (tracker : LockoutTracker) (enrollments : List ℤ)
      → IsReachable c bo elapsed (open_session user tracker enrollments).0 0
  served :
      {s : Session} {n : ℕ} (r : Request)
      → IsReachable c bo elapsed s n
      → IsReachable c bo elapsed
          (perform c bo elapsed r s).0
          (timers (perform c bo elapsed r s).1 + n)
  woken :
      {s : Session} {n : ℕ}
      → IsReachable c bo elapsed s (suc n)
      → IsReachable c bo elapsed (lockout_timer_expired s).0 n
