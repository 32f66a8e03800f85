-- ===== src/Light/LedDevice.antt =====
-- light/devices/LedDevice.h and LedDevice.cpp: an LED of /sys/class/leds. A method returns the log
-- with what it has written, and its result.
use Prim.Native.String.{String}
use text.Mathlib.Text.{find?}
use hardware_voltage_interfa.Base.{
  ℕ, zero, suc, ◌*◌, ◌/◌, Bool, true, false, not, ◌&&◌, Option, some, none, List, [], ◌∷◌, ◌==◌,
  ltb, if◌then◌else◌,
}
use hardware_voltage_interfa.Base.Int.{ℤ, pos, to_i32, to_u32, ltb_ℤ, ◌-ℤ◌}
use hardware_voltage_interfa.Light.Models.{
  Effect, fixed, timed, hardware, State, to_brightness, scale_brightness,
}
use hardware_voltage_interfa.Light.Sysfs.{
  Node, directory, brightness, max_brightness, breath, blink, start_idx, duty_pcts, pause_lo,
  pause_hi, ramp_step_ms, trigger, delay_off, delay_on, FilePath, led_node, Content, number, word,
  numbers, sleep, Log, Sysfs, write_to_file, write_while_ok,
}

pub data LightMode : Type 0 where
  static : LightMode
  breathing : LightMode
  timed_upstream : LightMode
  timed_qcom : LightMode

-- The value of the enumerator.
unfoldable pub mode_index : LightMode → ℕ
mode_index static = 0
mode_index breathing = 1
mode_index timed_upstream = 2
mode_index timed_qcom = 3

-- `breath_node` is absent where `mBreathNode` is empty.
pub record LedDevice : Type 0 where
  pub name : String
  pub idx : ℕ
  pub max_brightness_value : ℕ
  pub breath_node : Option Node
  pub supports_timed_upstream : Bool
  pub supports_timed_qcom : Bool

unfoldable pub supports_mode : LedDevice → LightMode → Bool
supports_mode d static = true
supports_mode d breathing = elim d.breath_node [ none ↦ false | some n ↦ true ]
supports_mode d timed_upstream = d.supports_timed_upstream
supports_mode d timed_qcom = d.supports_timed_qcom

-- The mode for an effect, before the device is asked.
unfoldable pub mode_of : Effect → LightMode
mode_of fixed = static
mode_of hardware = breathing
mode_of (timed on off) = timed_qcom

unfoldable pub flash_times : Effect → ℕ × ℕ
flash_times fixed = (0, 0)
flash_times hardware = (0, 0)
flash_times (timed on off) = (on, off)

-- The `switch` that falls through to the first mode that is supported.
unfoldable pub fall_back : (LightMode → Bool) → LightMode → LightMode
fall_back supports static = static
fall_back supports breathing = if supports breathing then breathing else static
fall_back supports timed_upstream =
    if supports timed_upstream
    then timed_upstream
    else if supports breathing
    then breathing
    else static
fall_back supports timed_qcom =
    if supports timed_qcom
    then timed_qcom
    else if supports timed_upstream
    then timed_upstream
    else if supports breathing
    then breathing
    else static

-- Eight steps from dark to `value`, in percent; the loop is written out.
unfoldable pub get_scaled_duty_percent : ℕ → List ℕ
get_scaled_duty_percent value =
    0 * 100 * value / 2040
    ∷ 1 * 100 * value / 2040
    ∷ 2 * 100 * value / 2040
    ∷ 3 * 100 * value / 2040
    ∷ 4 * 100 * value / 2040
    ∷ 5 * 100 * value / 2040
    ∷ 6 * 100 * value / 2040
    ∷ 7 * 100 * value / 2040
    ∷ []

-- The step and the pause at full brightness of the Qualcomm ramp: `stepDuration` and `pauseHi`.
unfoldable pub ramp_times : ℕ → ℤ × ℤ
unfolding to_i32 to_u32 ◌-ℤ◌
ramp_times flash_on_ms =
    let pause = to_i32 (pos (to_u32 (pos flash_on_ms -ℤ pos 800))) in
    if ltb_ℤ pause (pos 0) then (to_i32 (pos (flash_on_ms / 16)), pos 0) else (pos 50, pause)

-- The writes of a mode, but for the timer of the kernel.
unfoldable pub writes_of : LedDevice → ℕ → LightMode → ℕ → ℕ → List (FilePath × Content)
unfolding ramp_times get_scaled_duty_percent scale_brightness
writes_of d value static on off =
    (led_node d.name brightness, number (pos (scale_brightness value d.max_brightness_value))) ∷ []
writes_of d value breathing on off =
    (led_node d.name brightness, number (pos (scale_brightness value d.max_brightness_value)))
    ∷ elim d.breath_node [
      | some n ↦ (led_node d.name n, number (if ltb 0 value then pos 1 else pos 0)) ∷ []
      | none ↦ (led_node d.name directory, number (if ltb 0 value then pos 1 else pos 0)) ∷ []
    ]
writes_of d value timed_upstream on off = []
writes_of d value timed_qcom on off =
    (led_node d.name start_idx, number (pos (d.idx * 8)))
    ∷ (led_node d.name duty_pcts, numbers (get_scaled_duty_percent value))
    ∷ (led_node d.name pause_lo, number (to_i32 (pos off)))
    ∷ (led_node d.name pause_hi, number (ramp_times on).1)
    ∷ (led_node d.name ramp_step_ms, number (ramp_times on).0)
    ∷ (led_node d.name blink, number (if ltb 0 value then pos 1 else pos 0))
    ∷ []

module _ (sys : Sysfs) where
  open sys use {good, read_number, read_lines}

  unfoldable pub is_ok : LedDevice → Log → Bool
  is_ok d l = good l (led_node d.name brightness)

  any_offers_timer : List String → Bool
  any_offers_timer [] = false
  any_offers_timer (line ∷ lines) = elim (find? line "timer") [
    | some i ↦ true
    | none ↦ any_offers_timer lines
  ]

  find_breath_node : String → Log → Option Node
  find_breath_node name l =
      if good l (led_node name breath)
      then some breath
      else if good l (led_node name blink)
      then some blink
      else none

  unfoldable pub new : String → Log → LedDevice
  unfolding find_breath_node any_offers_timer
  new name l = record {
    name = name;
    idx = 0;
    max_brightness_value = elim (read_number l (led_node name max_brightness)) [
      | some n ↦ n
      | none ↦ 255
    ];
    breath_node = find_breath_node name l;
    supports_timed_upstream =
        good l (led_node name trigger) && any_offers_timer (read_lines l (led_node name trigger));
    supports_timed_qcom =
        good l (led_node name blink)
        && good l (led_node name start_idx)
        && good l (led_node name duty_pcts)
        && good l (led_node name pause_lo)
        && good l (led_node name pause_hi)
        && good l (led_node name ramp_step_ms);
  }

  -- `writeToFile(mBasePath + node, content)`, whose result is not used.
  unfoldable pub write_node : LedDevice → Node → Content → Log → Log
  write_node d n c l = (write_to_file sys (led_node d.name n) c l).0

  unfoldable pub write_breath : LedDevice → Option Node → Log → Log
  unfolding write_node
  write_breath d none l = l
  write_breath d (some n) l = write_node d n (number (pos 0)) l

  -- Disables one kind of blinking, if the device has it and is not to use it.
  unfoldable pub disable : LedDevice → LightMode → Log → Log
  unfolding write_breath write_node
  disable d static l = write_node d brightness (number (pos 0)) l
  disable d breathing l = write_breath d d.breath_node (write_node d brightness (number (pos 0)) l)
  disable d timed_upstream l = write_node d trigger (word "none") l
  disable d timed_qcom l = write_node d blink (number (pos 0)) l

  unfoldable pub disable_unless : LedDevice → LightMode → LightMode → Log → Log
  unfolding disable mode_index supports_mode
  disable_unless d mode m l =
      if not (mode_index mode == mode_index m) && supports_mode d m then disable d m l else l

  unfoldable pub disable_others : LedDevice → LightMode → Log → Log
  unfolding disable_unless
  disable_others d mode l = disable_unless d mode static (
      disable_unless d mode breathing
        (disable_unless d mode timed_upstream (disable_unless d mode timed_qcom l)))

  -- One turn of the loop that waits for the nodes of the timer.
  unfoldable pub write_delays : LedDevice → ℕ → ℕ → Log → Log × Bool
  unfolding write_while_ok
  write_delays d on off l =
      write_while_ok sys
        ((led_node d.name delay_off, number (pos off))
          ∷ (led_node d.name delay_on, number (pos on))
          ∷ [])
        (sleep 2 ∷ l)

  unfoldable pub retry_delays : LedDevice → ℕ → ℕ → ℕ → Log → Log × Bool
  unfolding write_delays
  retry_delays d on off zero l = (l, false)
  retry_delays d on off (suc retries) l =
      let turn = write_delays d on off l in
      let rest = retry_delays d on off retries turn.0 in if turn.1 then turn else rest

  unfoldable pub start_timer : LedDevice → ℕ → ℕ → ℕ → Log → Log × Bool
  unfolding write_to_file
  start_timer d value on off l =
      let started =
        write_to_file sys (led_node d.name trigger) (word (if ltb 0 value then "timer" else "none"))
          l in
      let waited = retry_delays d on off 20 started.0 in
      if started.1 && ltb 0 value then waited else started

  unfoldable pub enable : LedDevice → ℕ → LightMode → ℕ → ℕ → Log → Log × Bool
  unfolding writes_of start_timer write_while_ok
  enable d value static on off l = write_while_ok sys (writes_of d value static on off) l
  enable d value breathing on off l = write_while_ok sys (writes_of d value breathing on off) l
  enable d value timed_upstream on off l = start_timer d value on off l
  enable d value timed_qcom on off l = write_while_ok sys (writes_of d value timed_qcom on off) l

  unfoldable pub set_brightness : LedDevice → ℕ → LightMode → ℕ → ℕ → Log → Log × Bool
  unfolding enable disable_others
  set_brightness d value mode on off l = enable d value mode on off (disable_others d mode l)

  unfoldable pub set_state : LedDevice → State → Log → Log × Bool
  unfolding set_brightness mode_of flash_times fall_back supports_mode to_brightness
  set_state d s l =
      set_brightness d (to_brightness s.color) (fall_back (supports_mode d) (mode_of s.effect))
        (flash_times s.effect).0 (flash_times s.effect).1 l

unfoldable pub set_idx : ℕ → LedDevice → LedDevice
set_idx i d = record d { idx = i }
