-- ===== src/Fingerprint/Session/Messages.antt =====
-- What several messages of the device add up to.
use hardware_voltage_interfa.Base.{
  ℕ, suc, ◌+◌, ◌<◌, ◌⊎◌, ◌≡◌, refl, ap, ◌∙◌, Bool, true, List, [], ◌∷◌, ◌++◌, arith, if◌then◌else◌,
  length,
}
use mathlib.Core.List.{append_assoc}
use hardware_voltage_interfa.Base.Int.{ℤ, pos}
use hardware_voltage_interfa.Fingerprint.LockoutTracker.{
  k_permanent, Elapsed, reset, get_mode, add_failed_attempt,
}
use hardware_voltage_interfa.Fingerprint.AuthToken.{HwAuthToken, ByteOrder}
use hardware_voltage_interfa.Fingerprint.Session.{
  Session, Effect, Codes, authenticated, template_enumerating, notify, lockout_timer_expired,
  check_sensor_lockout, check_mode, start_lockout_timer, clear_lockout, on_authentication_failed,
  on_enrollments_enumerated, on_lockout_permanent,
}

module _ (c : Codes) (bo : ByteOrder) (elapsed : Elapsed) where
  -- The messages of one enumeration, each with the number of templates behind it.
  unfoldable pub enumeration : ℤ → ℤ → ℤ → List ℤ → Session → Effect
  enumeration now later last [] s = (s, [])
  enumeration now later last (fid ∷ ids) s =
      let (t, calls) =
        notify c bo elapsed now later last (template_enumerating fid (length ids)) s in
      let (u, more) = enumeration now later last ids t in (u, calls ++ more)

  -- A finger that does not match, after a timer thread woke up or not, at three clock readings.
  unfoldable pub fail_after : HwAuthToken → ℤ × ℤ × ℤ × Bool → Session → Effect
  fail_after hat (now, later, last, woken) s =
      notify c bo elapsed now later last (authenticated (pos 0) hat)
        (if woken then (lockout_timer_expired s).0 else s)

  unfoldable pub failures : HwAuthToken → List (ℤ × ℤ × ℤ × Bool) → Session → Session
  failures hat [] s = s
  failures hat (e ∷ es) s = failures hat es (fail_after hat e s).0

abbrev continue : Codes → ByteOrder → Elapsed → ℤ → ℤ → ℤ → List ℤ → Effect → Effect
continue c bo elapsed now later last ids e =
    let (u, more) = enumeration c bo elapsed now later last ids e.0 in (u, e.1 ++ more)

notify-last :
    (c : Codes) (bo : ByteOrder) (elapsed : Elapsed) (now later last : ℤ) (fid : ℤ) (s : Session)
    → notify c bo elapsed now later last (template_enumerating fid 0) s
      ≡ (record s { enrollments = [] }, on_enrollments_enumerated (s.enrollments ++ fid ∷ []) ∷ [])
unfolding notify
notify-last c bo elapsed now later last fid s = refl

notify-more :
    (c : Codes) (bo : ByteOrder) (elapsed : Elapsed) (now later last : ℤ) (fid : ℤ) (n : ℕ)
    (s : Session)
    → notify c bo elapsed now later last (template_enumerating fid (suc n)) s
      ≡ (record s { enrollments = s.enrollments ++ fid ∷ [] }, [])
unfolding notify
notify-more c bo elapsed now later last fid n s = ground arith

-- The device's messages on its templates make one callback, with all of them in their order behind
-- those that an enumeration before left over; the next enumeration starts with none.
pub enumeration_lem :
    (c : Codes) (bo : ByteOrder) (elapsed : Elapsed) (now later last : ℤ) (fid : ℤ) (ids : List ℤ)
    (s : Session)
    → enumeration c bo elapsed now later last (fid ∷ ids) s
      ≡ (record s { enrollments = [] }, on_enrollments_enumerated (s.enrollments ++ fid ∷ ids) ∷ [])
unfolding enumeration
enumeration_lem c bo elapsed now later last fid [] s =
    ap (continue c bo elapsed now later last []) (notify-last c bo elapsed now later last fid s)
enumeration_lem c bo elapsed now later last fid (x ∷ ids) s =
    let t = record s { enrollments = s.enrollments ++ fid ∷ [] } in
    ap (continue c bo elapsed now later last (x ∷ ids))
      (notify-more c bo elapsed now later last fid (length ids) s)
    ∙ enumeration_lem c bo elapsed now later last x ids t
    ∙ ap (λ all. (record s { enrollments = [] }, on_enrollments_enumerated all ∷ []))
        (append_assoc s.enrollments (fid ∷ []) (x ∷ ids))

-- The tracker and the abort flag after one finger that does not match.
pub record IsLockedFor (e : Effect) (n : ℕ) : Type 0 where
  pub counted : e.0.lockout_tracker.failed_count ≡ n
  pub mode : (n < 20) ⊎ (e.0.lockout_tracker.current_mode ≡ k_permanent)
  pub aborted : (n < 20) ⊎ (e.0.is_lockout_timer_aborted ≡ true)
  pub told : (n < 20) ⊎ (e.1 ≡ on_authentication_failed ∷ on_lockout_permanent ∷ [])

fail_after-IsLockedFor :
    (c : Codes) (bo : ByteOrder) (elapsed : Elapsed) (hat : HwAuthToken) (now later last : ℤ)
    (woken : Bool) (s : Session) (n : ℕ)
    → s.lockout_tracker.failed_count ≡ n
    → IsLockedFor (fail_after c bo elapsed hat (now, later, last, woken) s) (suc n)
unfolding fail_after notify check_sensor_lockout check_mode start_lockout_timer clear_lockout reset
    get_mode add_failed_attempt lockout_timer_expired
fail_after-IsLockedFor c bo elapsed hat now later last woken s n h = ground arith

count-failures :
    (c : Codes) (bo : ByteOrder) (elapsed : Elapsed) (hat : HwAuthToken)
    (es : List (ℤ × ℤ × ℤ × Bool)) (s : Session) (n : ℕ)
    → s.lockout_tracker.failed_count ≡ n
    → (failures c bo elapsed hat es s).lockout_tracker.failed_count ≡ n + length es
unfolding failures
count-failures c bo elapsed hat [] s n h = omega arith
count-failures c bo elapsed hat ((now, later, last, woken) ∷ es) s n h =
    let t = (fail_after c bo elapsed hat (now, later, last, woken) s).0 in
    let one = fail_after-IsLockedFor c bo elapsed hat now later last woken s n h in
    let rest = count-failures c bo elapsed hat es t (suc n) one.counted in omega arith

-- Every finger that does not match is counted, however much time lies between them and whether or
-- not timer threads lift the timed lockouts between them; from the twentieth on since the counter
-- was reset the sensor is locked permanently, the timer is marked as aborted, and the client is told
-- both that the authentication failed and that the lockout is permanent.
pub fail_after-failures :
    (c : Codes) (bo : ByteOrder) (elapsed : Elapsed) (hat : HwAuthToken)
    (es : List (ℤ × ℤ × ℤ × Bool)) (now later last : ℤ) (woken : Bool) (s : Session)
    → s.lockout_tracker.failed_count ≡ 0
    → IsLockedFor
        (fail_after c bo elapsed hat (now, later, last, woken) (failures c bo elapsed hat es s))
        (suc (length es))
fail_after-failures c bo elapsed hat es now later last woken s h =
    let e = count-failures c bo elapsed hat es s 0 h in
    fail_after-IsLockedFor c bo elapsed hat now later last woken (failures c bo elapsed hat es s)
      (length es) (omega arith)
