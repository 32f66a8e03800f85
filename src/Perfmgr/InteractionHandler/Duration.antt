-- ===== src/Perfmgr/InteractionHandler/Duration.antt =====
-- How long an interaction is boosted.
use hardware_voltage_interfa.Base.{ℕ, ◌≤◌, ◌<◌, ◌≡◌, ◌⊎◌, true, false, [], arith}
use hardware_voltage_interfa.Base.Int.{
  ℤ, pos, negsuc, pos_part, neg_part, ◌+ℤ◌, ◌-ℤ◌, ◌≤ℤ◌, to_u32, to_i32, to_u64,
}
use hardware_voltage_interfa.Perfmgr.InteractionHandler.{
  InteractionHandler, idle, interaction, waiting, Settings, Timespec, final_duration, acquire,
  is_covered, acquire_calls, calc_timespec_diff_ms,
}

-- Whatever duration is asked for, the boost lasts at least the minimum and at most the maximum. It
-- lasts the duration asked for plus the offset where that lies strictly between them; but where that
-- is negative and an `int`, it lasts the maximum.
pub final_duration_bounds :
    (k : Settings) (duration : ℤ)
    → k.min_duration_ms ≤ k.max_duration_ms
    → k.max_duration_ms < 2147483648
    → negsuc 2147483647 ≤ℤ duration +ℤ pos k.duration_offset_ms
    → let final = final_duration k duration in
      let input = duration +ℤ pos k.duration_offset_ms in
      (pos k.min_duration_ms ≤ℤ final)
      × (final ≤ℤ pos k.max_duration_ms)
      × ((input ≤ℤ pos k.min_duration_ms) ⊎ (pos k.max_duration_ms ≤ℤ input) ⊎ (final ≡ input))
      × ((pos 0 ≤ℤ input) ⊎ (final ≡ pos k.max_duration_ms))
unfolding final_duration to_i32 to_u32
final_duration_bounds k duration le small low = ground arith

final_duration_nonneg :
    (k : Settings) (duration : ℤ)
    → k.min_duration_ms ≤ k.max_duration_ms
    → k.max_duration_ms < 2147483648
    → neg_part (final_duration k duration) ≡ 0
unfolding final_duration to_i32 to_u32
final_duration_nonneg k duration le small = ground arith

to_u64_rest :
    (d final : ℤ) (n : ℕ)
    → final ≤ℤ d
    → neg_part final ≡ 0
    → pos_part d < 2147483648
    → n ≤ to_u64 (d -ℤ final)
    → pos n +ℤ final ≤ℤ d
unfolding to_u64 ◌-ℤ◌ ◌+ℤ◌
to_u64_rest d final n le f small h = ground arith

is_covered_lem :
    (final : ℤ) (now : Timespec) (h : InteractionHandler)
    → neg_part final ≡ 0
    → pos_part h.duration_ms < 2147483648
    → (is_covered final now h ≡ false)
      ⊎ (pos (calc_timespec_diff_ms h.last_timespec now) +ℤ final ≤ℤ h.duration_ms)
unfolding is_covered
is_covered_lem final now h f small =
    let n = calc_timespec_diff_ms h.last_timespec now in
    let rest = to_u64_rest h.duration_ms final n in ground arith

-- A call on a handler that runs leaves a boost that lasts at least as long as the one asked for from
-- now on: either the boost before covers it, and nothing changes, or it is the one remembered, and
-- the hint is given if and only if none was.
pub acquire_covers :
    (k : Settings) (duration : ℤ) (now : Timespec) (h : InteractionHandler)
    → k.display_idle_support ≡ true
    → (h.state ≡ idle) ⊎ (h.state ≡ interaction) ⊎ (h.state ≡ waiting)
    → k.min_duration_ms ≤ k.max_duration_ms
    → k.max_duration_ms < 2147483648
    → pos_part h.duration_ms < 2147483648
    → let (g, calls) = acquire k duration now h in
      let final = final_duration k duration in
      ((g ≡ h)
        × (calls ≡ [])
        × (pos (calc_timespec_diff_ms h.last_timespec now) +ℤ final ≤ℤ h.duration_ms))
      ⊎ ((g.state ≡ interaction)
          × (g.duration_ms ≡ final)
          × (g.last_timespec ≡ now)
          × (calls ≡ acquire_calls h.state))
unfolding acquire is_covered
acquire_covers k duration now h support runs le small bound =
    let final = final_duration k duration in
    let b = final_duration_nonneg k duration le small in
    let c = is_covered_lem final now h b bound in ground arith
