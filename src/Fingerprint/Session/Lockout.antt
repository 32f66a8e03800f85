-- ===== src/Fingerprint/Session/Lockout.antt =====
-- The lockout timer in every run of a session.
use hardware_voltage_interfa.Base.{
  ℕ, suc, ◌+◌, ◌≡◌, ◌≢◌, ◌⊎◌, refl, Bool, true, false, not, ◌&&◌, List, [], ◌∷◌, ◌++◌, map, ◌==◌,
  arith, if◌then◌else◌,
}
use hardware_voltage_interfa.Base.Int.{ℤ, pos, eq_ℤ}
use hardware_voltage_interfa.Fingerprint.LockoutTracker.{
  LockoutMode, k_none, k_timed, k_permanent, Elapsed, reset, get_mode, add_failed_attempt,
}
use hardware_voltage_interfa.Fingerprint.AuthToken.{HardwareAuthToken, ByteOrder}
use hardware_voltage_interfa.Fingerprint.Session.{
  Session, Effect, Call, Codes, Message, error_msg, acquired_msg, template_enrolling,
  template_removed, authenticated, template_enumerating, open_session, generate_challenge,
  revoke_challenge, enroll, authenticate, detect_interaction, enumerate_enrollments,
  remove_enrollments, get_authenticator_id, invalidate_authenticator_id, reset_lockout, cancel,
  close, notify, lockout_timer_expired, check_sensor_lockout, check_mode, start_lockout_timer,
  clear_lockout, error_of, dev_remove, dev_authenticate, on_lockout_cleared,
}
use hardware_voltage_interfa.Fingerprint.Session.Runs.{
  Request, ask_challenge, end_challenge, ask_id, invalidate_id, start_enroll, start_authenticate,
  start_detect, start_enumerate, lift_lockout, end_session, start_remove, end_operation, receive,
  perform, timers, IsReachable, opened, served, woken,
}

abbrev pub is_permanent : LockoutMode → Bool
is_permanent k_permanent = true
is_permanent k_timed = false
is_permanent k_none = false

-- At most one timer thread sleeps, as the flag says; under a permanent lockout it is aborted.
pub record IsGuarded (s : Session) (n : ℕ) : Type 0 where
  pub sleeping : n ≡ (if s.is_lockout_timer_started then 1 else 0)
  pub guarded :
      (is_permanent s.lockout_tracker.current_mode
        && s.is_lockout_timer_started
        && not s.is_lockout_timer_aborted)
      ≡ false

timers-append : (xs ys : List Call) → timers (xs ++ ys) ≡ timers xs + timers ys
unfolding timers
timers-append [] ys = omega arith
timers-append (x ∷ xs) ys = let h = timers-append xs ys in omega arith

timers-remove : (user : ℤ) (ids : List ℤ) → timers (map (λ fid. dev_remove user fid) ids) ≡ 0
unfolding timers
timers-remove user [] = refl
timers-remove user (x ∷ xs) = let h = timers-remove user xs in omega arith

check_mode-IsGuarded :
    (mode : LockoutMode) (now : ℤ) (s : Session) (n : ℕ)
    → s.lockout_tracker.current_mode ≡ mode
    → n ≡ (if s.is_lockout_timer_started then 1 else 0)
    → IsGuarded (check_mode mode now s).0 (timers (check_mode mode now s).1 + n)
unfolding check_mode start_lockout_timer timers
check_mode-IsGuarded k_permanent now s n e h = ground arith
check_mode-IsGuarded k_timed now s n e h = ground arith
check_mode-IsGuarded k_none now s n e h = ground arith

expired-IsGuarded :
    (s : Session) (n : ℕ) → IsGuarded s (suc n) → IsGuarded (lockout_timer_expired s).0 n
unfolding lockout_timer_expired clear_lockout reset
expired-IsGuarded s n h = ground arith

reset_lockout-IsGuarded :
    (s : Session) (n : ℕ)
    → IsGuarded s n
    → IsGuarded (reset_lockout s).0 (timers (reset_lockout s).1 + n)
unfolding reset_lockout clear_lockout reset timers
reset_lockout-IsGuarded s n h = ground arith

check_sensor_lockout-IsGuarded :
    (elapsed : Elapsed) (now later : ℤ) (s : Session) (n : ℕ)
    → n ≡ (if s.is_lockout_timer_started then 1 else 0)
    → IsGuarded
        (check_sensor_lockout elapsed now later s).0
        (timers (check_sensor_lockout elapsed now later s).1 + n)
unfolding check_sensor_lockout
check_sensor_lockout-IsGuarded elapsed now later s n h =
    let t = get_mode elapsed now s.lockout_tracker in
    check_mode-IsGuarded t.current_mode later (record s { lockout_tracker = t }) n refl h

timers-dev_authenticate :
    (operation user error : ℤ) → timers (dev_authenticate operation user ∷ error_of error) ≡ 0
unfolding timers
timers-dev_authenticate operation user error = ground arith

authenticate-IsGuarded :
    (elapsed : Elapsed) (now later operation error : ℤ) (s : Session) (n : ℕ)
    → IsGuarded s n
    → IsGuarded
        (authenticate elapsed now later operation error s).0
        (timers (authenticate elapsed now later operation error s).1 + n)
unfolding authenticate
authenticate-IsGuarded elapsed now later operation error s n h =
    let (t, calls, _) = check_sensor_lockout elapsed now later s in
    let a = check_sensor_lockout-IsGuarded elapsed now later s n h.sleeping in
    let b = timers-append calls (dev_authenticate operation t.user_id ∷ error_of error) in
    let d = timers-dev_authenticate operation t.user_id error in
    let e : timers (calls ++ dev_authenticate operation t.user_id ∷ error_of error) + n
        ≡ timers calls + n =
      omega arith in
    rw e a

failed-IsGuarded :
    (elapsed : Elapsed) (now later last : ℤ) (s : Session) (n : ℕ)
    → IsGuarded s n
    → let t = record s { lockout_tracker = add_failed_attempt now s.lockout_tracker } in
      IsGuarded
        (check_sensor_lockout elapsed later last t).0
        (timers (check_sensor_lockout elapsed later last t).1 + n)
failed-IsGuarded elapsed now later last s n h =
    check_sensor_lockout-IsGuarded elapsed later last
      (record s { lockout_tracker = add_failed_attempt now s.lockout_tracker }) n h.sleeping

-- A change of the session that the timer does not notice.
unchanged-IsGuarded :
    (s : Session) (enrollments : List ℤ) (n k : ℕ)
    → k ≡ 0
    → IsGuarded s n
    → IsGuarded (record s { enrollments = enrollments }) (k + n)
unchanged-IsGuarded s enrollments n k e h = ground arith

zero_first : (s : Session) (k n : ℕ) → IsGuarded s (k + n) → IsGuarded s ((0 + k) + n)
zero_first s k n h = ground arith

branch-IsGuarded :
    (b : Bool) (x y : Effect) (n : ℕ)
    → IsGuarded x.0 (timers x.1 + n)
    → IsGuarded y.0 (timers y.1 + n)
    → IsGuarded (if b then x else y).0 (timers (if b then x else y).1 + n)
branch-IsGuarded true x y n p q = p
branch-IsGuarded false x y n p q = q

succeeded-IsGuarded :
    (s : Session) (n : ℕ)
    → IsGuarded s n
    → IsGuarded (record s { lockout_tracker = reset true s.lockout_tracker }) ((0 + 0) + n)
unfolding reset
succeeded-IsGuarded s n h = ground arith

timers-enroll :
    (bo : ByteOrder) (hat : HardwareAuthToken) (old : List ℕ) (error : ℤ) (s : Session)
    → timers (enroll bo hat old error s).1 ≡ 0
unfolding timers enroll
timers-enroll bo hat old error s = ground arith

notify-IsGuarded :
    (c : Codes) (bo : ByteOrder) (elapsed : Elapsed) (now later last : ℤ) (m : Message)
    (s : Session) (n : ℕ)
    → IsGuarded s n
    → IsGuarded
        (notify c bo elapsed now later last m s).0
        (timers (notify c bo elapsed now later last m s).1 + n)
unfolding notify timers reset
notify-IsGuarded c bo elapsed now later last (error_msg error) s n h =
    unchanged-IsGuarded s s.enrollments n (0 + 0) (omega arith) h
notify-IsGuarded c bo elapsed now later last (acquired_msg info) s n h =
    unchanged-IsGuarded s s.enrollments n (0 + 0) (omega arith) h
notify-IsGuarded c bo elapsed now later last (template_enrolling fid remaining) s n h =
    unchanged-IsGuarded s s.enrollments n (0 + 0) (omega arith) h
notify-IsGuarded c bo elapsed now later last (template_removed fid) s n h =
    unchanged-IsGuarded s s.enrollments n (0 + 0) (omega arith) h
notify-IsGuarded c bo elapsed now later last (authenticated fid hat) s n h =
    branch-IsGuarded (not (eq_ℤ fid (pos 0))) _ _ n (succeeded-IsGuarded s n h)
      (zero_first _ _ n (failed-IsGuarded elapsed now later last s n h))
notify-IsGuarded c bo elapsed now later last (template_enumerating fid remaining) s n h =
    branch-IsGuarded (remaining == 0) _ _ n (unchanged-IsGuarded s [] n (0 + 0) (omega arith) h)
      (unchanged-IsGuarded s (s.enrollments ++ fid ∷ []) n 0 refl h)

perform-IsGuarded :
    (c : Codes) (bo : ByteOrder) (elapsed : Elapsed) (r : Request) (s : Session) (n : ℕ)
    → IsGuarded s n
    → IsGuarded (perform c bo elapsed r s).0 (timers (perform c bo elapsed r s).1 + n)
unfolding perform generate_challenge revoke_challenge get_authenticator_id
    invalidate_authenticator_id enroll detect_interaction enumerate_enrollments remove_enrollments
    cancel close timers
perform-IsGuarded c bo elapsed (ask_challenge x) s n h =
    unchanged-IsGuarded s s.enrollments n (0 + (0 + 0)) (omega arith) h
perform-IsGuarded c bo elapsed (end_challenge x) s n h =
    unchanged-IsGuarded s s.enrollments n (0 + (0 + 0)) (omega arith) h
perform-IsGuarded c bo elapsed (ask_id x) s n h =
    unchanged-IsGuarded s s.enrollments n (0 + (0 + 0)) (omega arith) h
perform-IsGuarded c bo elapsed (invalidate_id x) s n h =
    unchanged-IsGuarded s s.enrollments n (0 + (0 + 0)) (omega arith) h
perform-IsGuarded c bo elapsed (start_enroll hat old error) s n h =
    unchanged-IsGuarded s s.enrollments n (timers (enroll bo hat old error s).1)
      (timers-enroll bo hat old error s) h
perform-IsGuarded c bo elapsed (start_authenticate now later operation error) s n h =
    authenticate-IsGuarded elapsed now later operation error s n h
perform-IsGuarded c bo elapsed start_detect s n h =
    unchanged-IsGuarded s s.enrollments n (0 + 0) (omega arith) h
perform-IsGuarded c bo elapsed start_enumerate s n h =
    unchanged-IsGuarded s s.enrollments n (0 + 0) (omega arith) h
perform-IsGuarded c bo elapsed lift_lockout s n h = reset_lockout-IsGuarded s n h
perform-IsGuarded c bo elapsed end_session s n h =
    let u = unchanged-IsGuarded s s.enrollments n (0 + 0) (omega arith) h in
    record { sleeping = u.sleeping; guarded = u.guarded }
perform-IsGuarded c bo elapsed (start_remove ids) s n h =
    unchanged-IsGuarded s s.enrollments n (timers (map (λ fid. dev_remove s.user_id fid) ids))
      (timers-remove s.user_id ids) h
perform-IsGuarded c bo elapsed (end_operation ret) s n h = ground arith
perform-IsGuarded c bo elapsed (receive now later last m) s n h =
    notify-IsGuarded c bo elapsed now later last m s n h

-- In every session, whatever calls, messages and timer threads it serves in whatever order, at most
-- one timer thread sleeps, namely if and only if `mIsLockoutTimerStarted` is set; and as long as the
-- lockout is permanent, a sleeping timer is marked as aborted.
pub IsReachable-IsGuarded :
    (c : Codes) (bo : ByteOrder) (elapsed : Elapsed) (s : Session) (n : ℕ)
    → IsReachable c bo elapsed s n
    → IsGuarded s n
unfolding open_session
IsReachable-IsGuarded c bo elapsed s n (opened user tracker enrollments) = record {
  sleeping = refl;
  guarded = opened_guarded (is_permanent tracker.current_mode);
}
  where
    opened_guarded : (b : Bool) → (b && false && not false) ≡ false
    opened_guarded true = refl
    opened_guarded false = refl
IsReachable-IsGuarded c bo elapsed s n (served r p) =
    perform-IsGuarded c bo elapsed r _ _ (IsReachable-IsGuarded c bo elapsed _ _ p)
IsReachable-IsGuarded c bo elapsed s n (woken p) =
    expired-IsGuarded _ _ (IsReachable-IsGuarded c bo elapsed _ _ p)

-- A timer thread that wakes up in a session under a permanent lockout neither changes the lockout
-- nor calls the client. One that no reset or permanent lockout has aborted lifts the lockout, keeps
-- the number of failed attempts, and tells the client once.
pub lockout_timer_expired_lem :
    (c : Codes) (bo : ByteOrder) (elapsed : Elapsed) (s : Session) (n : ℕ)
    → IsReachable c bo elapsed s (suc n)
    → let (t, calls) = lockout_timer_expired s in
      let mode = s.lockout_tracker.current_mode in
      ((mode ≢ k_permanent) ⊎ ((t.lockout_tracker ≡ s.lockout_tracker) × (calls ≡ [])))
      × ((s.is_lockout_timer_aborted ≡ true)
          ⊎ ((t.lockout_tracker.current_mode ≡ k_none)
              × (t.lockout_tracker.failed_count ≡ s.lockout_tracker.failed_count)
              × (calls ≡ on_lockout_cleared ∷ [])))
unfolding lockout_timer_expired clear_lockout reset
lockout_timer_expired_lem c bo elapsed s n p =
    let h = IsReachable-IsGuarded c bo elapsed s (suc n) p in ground arith
