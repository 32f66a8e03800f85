-- ===== src/Perfmgr/GpuCapacity.antt =====
-- power-libperfmgr/aidl/GpuCalculationHelpers.h and GpuCalculationHelpers.cpp, with the product of
-- PhysicalQuantityTypes.h: the GPU cycles that a late frame is short of. `float` is the parameter
-- `Singles`, next to `Float` for `double`.
use hardware_voltage_interfa.Base.{Bool, ◌||◌, if◌then◌else◌}
use hardware_voltage_interfa.Base.Int.{ℤ, pos, ◌+ℤ◌, ◌-ℤ◌, ltb_ℤ, eq_ℤ}
use hardware_voltage_interfa.Perfmgr.SessionRecords.{Float, WorkDuration}

pub record Singles (D : Type 0) : Type 1 where
  pub Single : Type 0
  pub of_integer : ℤ → Single
  pub to_integer : Single → ℤ
  pub widen : Single → D
  pub narrow : D → Single
  pub add : Single → Single → Single
  pub sub : Single → Single → Single
  pub mul : Single → Single → Single
  pub div : Single → Single → Single
  pub lt : Single → Single → Bool

-- `WorkDuration` of the interface: what SessionRecords reads of it, and the two other times.
pub record Report : Type 0 where
  pub work : WorkDuration
  pub cpu_duration_nanos : ℤ
  pub gpu_duration_nanos : ℤ

unfoldable pub subtotal_timings_invalid : Report → Bool
subtotal_timings_invalid o =
    ltb_ℤ o.work.duration_nanos o.gpu_duration_nanos
    || ltb_ℤ o.work.duration_nanos o.cpu_duration_nanos

module _ (F : Float) (G : Singles F.Double) where
  open F use {Double, of_int}

  unfoldable pub lerp : ℤ → ℤ → G.Single → ℤ
  lerp a b t =
      let fa = G.of_integer a in
      let fb = G.of_integer b in G.to_integer (G.add fa (G.mul (G.sub fb fa) t))

  -- `1.0 - cpu_portion` is a `double` that becomes a `float` again.
  unfoldable pub sanitize_timings : (Double → Double → Double) → ℤ → ℤ → ℤ → ℤ
  unfolding lerp
  sanitize_timings minus total cpu gpu =
      let accounted = cpu +ℤ gpu in
      let unaccounted = total -ℤ accounted in
      let cpu_portion = G.div (G.of_integer cpu) (G.of_integer accounted) in
      if ltb_ℤ (pos 0) unaccounted
      then lerp gpu (gpu +ℤ unaccounted) (G.narrow (minus (of_int (pos 1)) (G.widen cpu_portion)))
      else gpu

  unfoldable pub gpu_time_attribution : ℤ → ℤ → Double
  gpu_time_attribution total gpu =
      if eq_ℤ total (pos 0) then of_int (pos 0) else F.div (of_int gpu) (of_int total)

  -- `freq * time`: nanoseconds in `double` to seconds in `float`, times the frequency.
  unfoldable pub cycles_of : ℤ → Double → ℤ
  cycles_of freq time_ns =
      G.to_integer (G.mul (G.of_integer freq) (G.narrow (F.div time_ns (of_int (pos 1000000000)))))

  unfoldable pub calculate_capacity : (Double → Double → Double) → Report → ℤ → ℤ → ℤ
  unfolding subtotal_timings_invalid sanitize_timings gpu_time_attribution cycles_of
  calculate_capacity minus o target freq =
      let total = o.work.duration_nanos in
      let overrun = G.of_integer (total -ℤ target) in
      let gpu = sanitize_timings minus total o.cpu_duration_nanos o.gpu_duration_nanos in
      if G.lt overrun (G.of_integer (pos 0)) || subtotal_timings_invalid o
      then pos 0
      else cycles_of freq (F.mul (G.widen overrun) (gpu_time_attribution total gpu))
