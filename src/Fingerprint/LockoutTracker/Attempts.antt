-- ===== src/Fingerprint/LockoutTracker/Attempts.antt =====
-- The lockout as a function of the failed attempts.
use hardware_voltage_interfa.Base.{
  ℕ, suc, ◌+◌, ◌≤◌, ◌<◌, ◌≡◌, refl, true, List, [], ◌∷◌, arith, leb, if◌then◌else◌, length,
}
use hardware_voltage_interfa.Base.Int.{ℤ, pos}
use hardware_voltage_interfa.Fingerprint.LockoutTracker.{
  LockoutTracker, LockoutMode, k_none, k_timed, k_permanent, Elapsed, reset, add_failed_attempt,
  get_mode, get_lockout_time_left, lockout_timed_duration,
}

-- Failed attempts at the times given, with no query between them.
unfoldable pub attempts : List ℤ → LockoutTracker → LockoutTracker
attempts [] t = t
attempts (now ∷ times) t = attempts times (add_failed_attempt now t)

abbrev pub mode_after : ℕ → LockoutMode
mode_after n = if leb 20 n then k_permanent else if leb 5 n then k_timed else k_none

-- The mode fits the counter, and a timed lockout knows when it began.
pub record IsCounted (t : LockoutTracker) (n : ℕ) : Type 0 where
  pub counted : t.failed_count ≡ n
  pub mode : t.current_mode ≡ mode_after n

add_failed_attempt-IsCounted :
    (now : ℤ) (t : LockoutTracker) (n : ℕ)
    → IsCounted t n
    → IsCounted (add_failed_attempt now t) (suc n)
unfolding add_failed_attempt
add_failed_attempt-IsCounted now t n c = ground arith

attempts-IsCounted :
    (times : List ℤ) (t : LockoutTracker) (n : ℕ)
    → IsCounted t n
    → IsCounted (attempts times t) (n + length times)
unfolding attempts
attempts-IsCounted [] t n c = let e : n + 0 ≡ n = omega arith in rw e c
attempts-IsCounted (now ∷ times) t n c =
    let e : n + suc (length times) ≡ suc n + length times = omega arith in
    rw e (
      attempts-IsCounted times (add_failed_attempt now t) (suc n)
        (add_failed_attempt-IsCounted now t n c))

-- After a reset of the counter, attempts that fail lock the sensor for a time from the fifth on, and
-- permanently from the twentieth on; before the fifth there is no lockout.
pub attempts-reset :
    (times : List ℤ) (t : LockoutTracker)
    → ((attempts times (reset true t)).failed_count ≡ length times)
      × ((attempts times (reset true t)).current_mode ≡ mode_after (length times))
unfolding reset
attempts-reset times t =
    let c = attempts-IsCounted times (reset true t) 0 (record { counted = refl; mode = refl }) in
    let e : 0 + length times ≡ length times = omega arith in (rw (← e) c.counted, rw (← e) c.mode)

-- A timed lockout that has elapsed ends with the next query, but the counter stays: below the
-- permanent threshold, one more failed attempt locks the sensor again, from its own time on.
pub get_mode-add_failed_attempt :
    (elapsed : Elapsed) (now later : ℤ) (t : LockoutTracker)
    → t.current_mode ≡ k_timed
    → elapsed now t.lockout_timed_start lockout_timed_duration ≡ true
    → 4 ≤ t.failed_count
    → t.failed_count < 19
    → let u = get_mode elapsed now t in
      let v = add_failed_attempt later u in
      (u.current_mode ≡ k_none)
      × (get_lockout_time_left later u ≡ pos 0)
      × (v.current_mode ≡ k_timed)
      × (v.lockout_timed_start ≡ later)
unfolding get_mode add_failed_attempt get_lockout_time_left
get_mode-add_failed_attempt elapsed now later t timed over lo hi = ground arith
