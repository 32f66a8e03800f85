-- ===== src/Perfmgr/PowerHintSession/Pid.antt =====
-- PowerHintSession.cpp: convertWorkDurationToBoostByPid. `length` is the number of durations, which
-- is positive; positions in the vector are natural numbers.
use hardware_voltage_interfa.Base.{
  ℕ, suc, ◌+◌, ◌-◌, ◌%◌, ◌||◌, Option, none, some, List, [], ◌∷◌, ltb, leb, ◌==◌, if◌then◌else◌,
  length, drop,
}
use hardware_voltage_interfa.Base.Int.{ℤ, pos, ◌+ℤ◌, ◌-ℤ◌, ◌*ℤ◌, ltb_ℤ, div_ℤ, max_ℤ, min_ℤ, eq_ℤ}
use hardware_voltage_interfa.Perfmgr.SessionRecords.{Float}
use hardware_voltage_interfa.Perfmgr.GpuCapacity.{Report}
use hardware_voltage_interfa.Perfmgr.PowerHintSession.{
  Doubles, AdpfConfig, AppHintDesc, PowerHintSession, SessionJankyLevel, light, moderate, severe,
  is_on,
}

abbrev pub ns_to_100us : ℤ → ℤ
ns_to_100us ns = div_ℤ ns 100000

-- Where a sampling window starts: at 0 where there is none, or it is longer than the vector.
unfoldable pub window_start : ℕ → ℕ → ℕ
window_start window length = if window == 0 || ltb length window then 0 else length - window

abbrev pub least : ℕ → ℕ → ℕ
least a b = if ltb b a then b else a

-- The variables of the loop.
pub record PidState : Type 0 where
  pub err_sum : ℤ
  pub derivative_sum : ℤ
  pub integral_error : ℤ
  pub previous_error : ℤ

-- What the loop reads: the target, the starts of the windows and the bounds of the integral.
pub record PidInput : Type 0 where
  pub target : ℤ
  pub p_start : ℕ
  pub i_start : ℕ
  pub d_start : ℕ
  pub high : ℤ
  pub low : ℤ

abbrev pub error_of : PidInput → Report → ℤ
error_of p d = ns_to_100us (d.work.duration_nanos -ℤ p.target)

-- The loop's body at a position.
unfoldable pub pid_step : PidInput → ℕ → Report → PidState → PidState
pid_step p i d x = record {
  err_sum = if leb p.p_start i then x.err_sum +ℤ error_of p d else x.err_sum;
  derivative_sum =
      if leb p.d_start i
      then x.derivative_sum +ℤ (error_of p d -ℤ x.previous_error)
      else x.derivative_sum;
  integral_error =
      if leb p.i_start i
      then max_ℤ p.low (min_ℤ p.high (x.integral_error +ℤ error_of p d *ℤ ns_to_100us p.target))
      else x.integral_error;
  previous_error = error_of p d;
}

unfoldable pub pid_loop : PidInput → ℕ → List Report → PidState → PidState
pid_loop p i [] x = x
pid_loop p i (d ∷ ds) x = pid_loop p (suc i) ds (pid_step p i d x)

abbrev pub first_start : PidInput → ℕ
first_start p = least (least p.p_start p.i_start) p.d_start

unfoldable pub pid_input : {D : Type 0} → AdpfConfig D → ℤ → ℕ → PidInput
unfolding window_start
pid_input c target length = record {
  target = target;
  p_start = window_start c.sampling_window_p length;
  i_start = window_start c.sampling_window_i length;
  d_start = window_start c.sampling_window_d length;
  high = c.pid_i_high_div_i;
  low = c.pid_i_low_div_i;
}

unfoldable pub run_pid : {D : Type 0} → AdpfConfig D → List Report → AppHintDesc → PidState
unfolding pid_input pid_loop
run_pid c ds a =
    let p = pid_input c a.target_ns (length ds) in
    pid_loop p (first_start p) (drop (first_start p) ds) record {
      err_sum = pos 0;
      derivative_sum = pos 0;
      integral_error = a.integral_error;
      previous_error = a.previous_error;
    }

module _ (F : Float) (N : Doubles F.Double) where
  open F use {Double, of_int, mul, div, lt}
  open N use {add, sub, to_int}

  -- `JankyFactor`, with the difference of the thresholds in 32 bits.
  unfoldable pub janky_factor : AdpfConfig Double → ℕ → Double
  janky_factor c num =
      let low = c.hboost_moderate_jank_threshold in
      let high = c.hboost_severe_jank_threshold in
      if ltb num low
      then of_int (pos 0)
      else div (mul (of_int (pos (num - low))) (of_int (pos 1)))
          (of_int (pos ((high + (4294967296 - low % 4294967296)) % 4294967296)))

  -- `pid_pu_active`
  unfoldable pub pid_pu_active : AdpfConfig Double → SessionJankyLevel → ℕ → Double
  unfolding janky_factor
  pid_pu_active c level num =
      let boosted =
        if lt c.pid_pu c.hboost_severe_jank_pid_pu then c.pid_pu else c.hboost_severe_jank_pid_pu in
      if is_on c.heuristic_boost_on
      then elim level [
        | light ↦ c.pid_pu
        | moderate ↦ add c.pid_pu (mul (janky_factor c num) (sub boosted c.pid_pu))
        | severe ↦ boosted
      ]
      else c.pid_pu

  -- The output, from the variables after the loop. The division of the trace by `dt`, which is
  -- on integers, is left undefined where `dt` is 0.
  unfoldable pub pid_output :
      AdpfConfig Double → SessionJankyLevel → ℕ → PidInput → ℕ → PidState → Option ℤ
  unfolding pid_pu_active
  pid_output c level num p length x =
      let dt = ns_to_100us p.target in
      let p_factor = if ltb_ℤ (pos 0) x.err_sum then c.pid_po else pid_pu_active c level num in
      let d_factor = if ltb_ℤ (pos 0) x.derivative_sum then c.pid_do else c.pid_du in
      let p_out =
        to_int (div (mul p_factor (of_int x.err_sum)) (of_int (pos (length - p.p_start)))) in
      let i_out = to_int (mul c.pid_i (of_int x.integral_error)) in
      let d_out = to_int (
        div (div (mul d_factor (of_int x.derivative_sum)) (of_int dt))
          (of_int (pos (length - p.d_start)))) in
      if eq_ℤ dt (pos 0) then none else some (p_out +ℤ i_out +ℤ d_out)

  abbrev with_errors : PidState → PowerHintSession Double → PowerHintSession Double
  with_errors x s = record s {
    descriptor = record s.descriptor {
      integral_error = x.integral_error;
      previous_error = x.previous_error;
    };
  }

  unfoldable pub convert_work_duration_to_boost_by_pid :
      AdpfConfig Double
      → List Report
      → PowerHintSession Double
      → Option (PowerHintSession Double × ℤ)
  unfolding run_pid pid_output pid_input
  convert_work_duration_to_boost_by_pid c ds s =
      let x = run_pid c ds s.descriptor in
      elim (pid_output c s.janky_level s.janky_frame_num
        (pid_input c s.descriptor.target_ns (length ds)) (length ds) x) [
          | none ↦ none
          | some output ↦ some (with_errors x s, output)
        ]
