-- ===== src/Light/Modes.antt =====
-- light/devices: the mode that a device falls back to.
use hardware_voltage_interfa.Base.{◌≤◌, ◌<◌, ◌≡◌, refl, Bool, true, false, arith}
use hardware_voltage_interfa.Light.Models.{Effect}
use hardware_voltage_interfa.Light.Sysfs.{Log, Sysfs}
use hardware_voltage_interfa.Light.LedDevice.{
  LightMode, static, breathing, timed_upstream, timed_qcom, mode_index, LedDevice, supports_mode,
  mode_of, fall_back,
}
use hardware_voltage_interfa.Light.RgbLedDevice.{RgbLedDevice, supports}

-- The mode is no greater than the one asked for, it is supported, and none between them is.
pub record IsBest (supports : LightMode → Bool) (asked chosen : LightMode) : Type 0 where
  pub is_lower : mode_index chosen ≤ mode_index asked
  pub is_supported : supports chosen ≡ true
  pub is_first :
      (m : LightMode)
      → mode_index chosen < mode_index m
      → mode_index m ≤ mode_index asked
      → supports m ≡ false

first :
    (supports : LightMode → Bool) (asked m : LightMode)
    → mode_index (fall_back supports asked) < mode_index m
    → mode_index m ≤ mode_index asked
    → supports m ≡ false
unfolding fall_back mode_index
first s static static lt le = ground arith
first s static breathing lt le = ground arith
first s static timed_upstream lt le = ground arith
first s static timed_qcom lt le = ground arith
first s breathing static lt le = ground arith
first s breathing breathing lt le = ground arith
first s breathing timed_upstream lt le = ground arith
first s breathing timed_qcom lt le = ground arith
first s timed_upstream static lt le = ground arith
first s timed_upstream breathing lt le = ground arith
first s timed_upstream timed_upstream lt le = ground arith
first s timed_upstream timed_qcom lt le = ground arith
first s timed_qcom static lt le = ground arith
first s timed_qcom breathing lt le = ground arith
first s timed_qcom timed_upstream lt le = ground arith
first s timed_qcom timed_qcom lt le = ground arith

fall_back-IsBest :
    (supports : LightMode → Bool) (asked : LightMode)
    → supports static ≡ true
    → IsBest supports asked (fall_back supports asked)
unfolding fall_back mode_index
fall_back-IsBest s asked h = record {
  is_lower = lower asked;
  is_supported = supported asked;
  is_first = first s asked;
}
  where
    lower : (asked : LightMode) → mode_index (fall_back s asked) ≤ mode_index asked
    lower static = ground arith
    lower breathing = ground arith
    lower timed_upstream = ground arith
    lower timed_qcom = ground arith

    supported : (asked : LightMode) → s (fall_back s asked) ≡ true
    supported static = ground arith
    supported breathing = ground arith
    supported timed_upstream = ground arith
    supported timed_qcom = ground arith

-- The mode in which an LED shows an effect, and that of three LEDs together, are the best that the
-- device supports: no mode above the one asked for, and the first below it that is supported.
pub fall_back-AreBest :
    (sys : Sysfs) (l : Log) (led : LedDevice) (rgb : RgbLedDevice) (e : Effect)
    → IsBest (supports_mode led) (mode_of e) (fall_back (supports_mode led) (mode_of e))
      × IsBest (supports sys l rgb) (mode_of e) (fall_back (supports sys l rgb) (mode_of e))
unfolding supports
fall_back-AreBest sys l led rgb e =
    (fall_back-IsBest _ (mode_of e) refl, fall_back-IsBest _ (mode_of e) (ground arith))
