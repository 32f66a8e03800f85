-- ===== src/Light/RgbLedDevice.antt =====
-- light/devices/RgbLedDevice.h and RgbLedDevice.cpp: up to three LEDs that mix one colour. The build
-- flag SNAP_RGB_TO_PURE is a parameter.
use Prim.Native.String.{String}
use hardware_voltage_interfa.Base.{
  ℕ, ◌+◌, ◌*◌, ◌/◌, ◌%◌, Bool, true, false, not, ◌&&◌, ◌||◌, List, [], ◌∷◌, ◌==◌, ltb, leb,
  if◌then◌else◌,
}
use hardware_voltage_interfa.Base.Int.{pos}
use hardware_voltage_interfa.Light.Models.{Color, State, to_brightness}
use hardware_voltage_interfa.Light.Sysfs.{file, number, Log, Sysfs, write_to_file}
use hardware_voltage_interfa.Light.LedDevice.{
  LightMode, mode_index, LedDevice, is_ok, supports_mode, mode_of, flash_times, fall_back,
  set_brightness, set_idx,
}

pub data Role : Type 0 where
  red_led : Role
  green_led : Role
  blue_led : Role

-- The bit of a role.
unfoldable pub role_bit : Role → ℕ
role_bit red_led = 1
role_bit green_led = 2
role_bit blue_led = 4

pub record RgbLedDevice : Type 0 where
  pub red : LedDevice
  pub green : LedDevice
  pub blue : LedDevice
  pub rgb_sync_node : String
  pub roles : ℕ

-- `mRoles & role`, as a test.
unfoldable pub has_role : ℕ → Role → Bool
unfolding role_bit
has_role roles r = roles / role_bit r % 2 == 1

-- `mRoles |= role`, where it is not there yet.
unfoldable pub add_role : Bool → Role → ℕ → ℕ
unfolding role_bit has_role
add_role ok r roles = if ok && not (has_role roles r) then roles + role_bit r else roles

-- `std::max({a, b, c})`.
unfoldable pub max_of : ℕ → ℕ → ℕ → ℕ
max_of a b c = let ab = if ltb a b then b else a in if ltb ab c then c else ab

unfoldable pub snap : ℕ → ℕ → ℕ
snap mx c = if leb mx (c * 2) then 255 else 0

unfoldable pub snap_to_pure : Color → Color
unfolding max_of snap
snap_to_pure c =
    let mx = max_of c.red c.green c.blue in
    if mx == 0
    then c
    else record { red = snap mx c.red; green = snap mx c.green; blue = snap mx c.blue }

components : Color → List (Role × ℕ)
components c = (red_led, c.red) ∷ (green_led, c.green) ∷ (blue_led, c.blue) ∷ []

-- The brightness that each LED is set to, in the order of the calls: `roles` are the LEDs that there
-- are. A byte is taken from the `int` of a mean.
unfoldable pub levels : Bool → ℕ → Color → List (Role × ℕ)
unfolding has_role snap_to_pure to_brightness components
levels snaps roles c =
    if roles == 7
    then components (if snaps then snap_to_pure c else c)
    else if roles == 1
    then (red_led, to_brightness c) ∷ []
    else if roles == 2
    then (green_led, to_brightness c) ∷ []
    else if roles == 4
    then (blue_led, to_brightness c) ∷ []
    else if not (has_role roles red_led)
    then (blue_led, (c.blue + c.red) / 2 % 256) ∷ (green_led, (c.green + c.red) / 2 % 256) ∷ []
    else if not (has_role roles green_led)
    then (red_led, (c.red + c.green) / 2 % 256) ∷ (blue_led, (c.blue + c.green) / 2 % 256) ∷ []
    else if not (has_role roles blue_led)
    then (red_led, (c.red + c.blue) / 2 % 256) ∷ (green_led, (c.green + c.blue) / 2 % 256) ∷ []
    else []

unfoldable pub led_of : RgbLedDevice → Role → LedDevice
led_of d red_led = d.red
led_of d green_led = d.green
led_of d blue_led = d.blue

module _ (sys : Sysfs) where
  open sys use {good}

  unfoldable pub new : LedDevice → LedDevice → LedDevice → String → Log → RgbLedDevice
  unfolding add_role set_idx is_ok
  new red green blue rgb_sync_node l = record {
    red = set_idx 0 red;
    green = set_idx 1 green;
    blue = set_idx 2 blue;
    rgb_sync_node = rgb_sync_node;
    roles =
        add_role (is_ok sys blue l) blue_led
          (add_role (is_ok sys green l) green_led (add_role (is_ok sys red l) red_led 0));
  }

  unfoldable pub is_any_ok : RgbLedDevice → Bool
  is_any_ok d = not (d.roles == 0)

  unfoldable pub supports : Log → RgbLedDevice → LightMode → Bool
  unfolding is_ok supports_mode
  supports l d mode =
      (not (is_ok sys d.red l) || supports_mode d.red mode)
      && (not (is_ok sys d.green l) || supports_mode d.green mode)
      && (not (is_ok sys d.blue l) || supports_mode d.blue mode)

  unfoldable pub supports_rgb_sync : Log → RgbLedDevice → Bool
  supports_rgb_sync l d = good l (file d.rgb_sync_node)

  -- `rc &= led.setBrightness(..)` for each: all are set, whatever the ones before returned.
  unfoldable pub set_all :
      RgbLedDevice → List (Role × ℕ) → LightMode → ℕ × ℕ → Log × Bool → Log × Bool
  unfolding set_brightness led_of
  set_all d [] mode times r = r
  set_all d ((role, value) ∷ rest) mode times r =
      let done = set_brightness sys (led_of d role) value mode times.0 times.1 r.0 in
      set_all d rest mode times (done.0, r.1 && done.1)

  -- `if (mode == TIMED_QCOM && supportsRgbSync()) rc &= writeToFile(mRgbSyncNode, value)`
  unfoldable pub sync : RgbLedDevice → LightMode → ℕ → Log × Bool → Log × Bool
  unfolding supports_rgb_sync mode_index write_to_file
  sync d mode value r =
      let done = write_to_file sys (file d.rgb_sync_node) (number (pos value)) r.0 in
      if mode_index mode == 3 && supports_rgb_sync r.0 d then (done.0, r.1 && done.1) else r

  unfoldable pub set_leds : Bool → RgbLedDevice → State → LightMode → Log → Log × Bool
  unfolding sync set_all levels flash_times
  set_leds snaps d s mode l = sync d mode 1 (
      set_all d (levels snaps d.roles s.color) mode (flash_times s.effect)
        (sync d mode 0 (l, true)))

  unfoldable pub set_state : Bool → RgbLedDevice → State → Log → Log × Bool
  unfolding set_leds fall_back supports mode_of
  set_state snaps d s l =
      if d.roles == 0
      then (l, false)
      else set_leds snaps d s (fall_back (supports l d) (mode_of s.effect)) l
