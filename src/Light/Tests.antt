-- ===== src/Light/Tests.antt =====
-- An LED with every mode, three LEDs of a phone, and requests to the light service.
use Prim.Native.String.{String}
use hardware_voltage_interfa.Base.{
  ◌+◌, ◌*◌, ◌≤◌, ◌<◌, ◌≡◌, refl, true, false, ◌||◌, some, List, [], ◌∷◌, leb, if◌then◌else◌, arith,
}
use hardware_voltage_interfa.Base.Int.{ℤ, pos, negsuc, pos_part, neg_part}
use hardware_voltage_interfa.Light.Models.{
  Color, timed, HwLightState, flash_timed, to_brightness, of_argb, is_lit,
}
use hardware_voltage_interfa.Light.Sysfs.{blink, breath, last_at, Sysfs}
use hardware_voltage_interfa.Light.LedDevice.{
  timed_upstream, timed_qcom, mode_index, LedDevice, supports_mode, fall_back, mode_of,
  set_brightness, start_timer, ramp_times, is_ok,
}
use hardware_voltage_interfa.Light.RgbLedDevice.{
  Role, red_led, RgbLedDevice, supports, levels, snap_to_pure,
}
use hardware_voltage_interfa.Light.RgbLedDevice as Rgb
use hardware_voltage_interfa.Light.Devices.{
  Build, Devices, has_notification_devices, set_notification_state,
}
use hardware_voltage_interfa.Light.Lights.{
  battery, camera, microphone, backlight, set_light_state, get_lights,
}
use hardware_voltage_interfa.Light.Brightness.{IsColor, ramp_times_lem}
use hardware_voltage_interfa.Light.Disabling.{is_breath, switch_of, off_of}
use hardware_voltage_interfa.Light.Switches.{set_brightness-IsExclusive}
use hardware_voltage_interfa.Light.Modes.{IsBest, fall_back-AreBest}
use hardware_voltage_interfa.Light.Wait.{turns, Appear, AreSet, start_timer-AreSet}
use hardware_voltage_interfa.Light.Blend.{levels-AreFor, count, AllBelow, is_there}
use hardware_voltage_interfa.Light.Requests.{
  Request, run, run-IsShown, run-answers, shown, is_listed, is_answered, is_unguarded,
}

-- Every file can be opened, and the maximum is 100.
abbrev kernel : Sysfs
kernel = record {
  good = λ l p. true;
  can_write = λ l p. true;
  read_number = λ l p. some 100;
  read_lines = λ l p. "none [timer] heartbeat" ∷ [];
}

-- A kernel on which any file can be written from the third turn on, and the trigger at once.
abbrev slow_kernel : Sysfs
slow_kernel = record kernel { can_write = λ l p. leb 3 (turns l) || leb (turns l) 0 }

abbrev led : String → LedDevice
led name = record {
  name = name;
  idx = 0;
  max_brightness_value = 100;
  breath_node = some breath;
  supports_timed_upstream = true;
  supports_timed_qcom = true;
}

abbrev three_leds : RgbLedDevice
unfolding Rgb.new
three_leds = Rgb.new kernel (led "red") (led "green") (led "blue") "" []

abbrev violet : Color
violet = record { red = 200; green = 0; blue = 250 }

abbrev phone : Devices
phone = record {
  backlight_devices = [];
  backlight_led_devices = led "lcd-backlight" ∷ [];
  button_led_devices = [];
  keyboard_led_devices = [];
  notification_rgb_led_devices = three_leds ∷ [];
  notification_led_devices = [];
}

abbrev plain : Build
plain = record { scan_for_backlight_devices = false; snap_rgb_to_pure = false }

abbrev request : ℤ → HwLightState
request c = record {
  color = c;
  flash_mode = flash_timed;
  flash_on_ms = pos 1000;
  flash_off_ms = pos 500;
}

-- The battery is charging (green), and the camera was used (white) and is off again.
abbrev history : List Request
history =
    (camera, request (pos 0))
    ∷ (camera, request (negsuc 0))
    ∷ (battery, request (negsuc 16711935))
    ∷ []

-- Of a lit colour an LED on its own may show nothing.
dim_blue : (is_lit (of_argb 8) ≡ true) × (to_brightness (of_argb 8) ≡ 0)
unfolding is_lit of_argb to_brightness
dim_blue = (refl, refl)

short_flash : ramp_times 400 ≡ (pos 25, pos 0)
unfolding ramp_times
short_flash = refl

ramp_times_lem_example :
    (neg_part (ramp_times 1007).0 ≡ 0)
    × (neg_part (ramp_times 1007).1 ≡ 0)
    × (16 * pos_part (ramp_times 1007).0 + pos_part (ramp_times 1007).1 ≤ 1007)
    × (1007 < 16 * pos_part (ramp_times 1007).0 + pos_part (ramp_times 1007).1 + 16)
ramp_times_lem_example = ramp_times_lem 1007 (omega arith)

set_brightness-IsExclusive_example :
    last_at "white" blink (set_brightness kernel (led "white") 128 timed_upstream 300 200 []).0
    ≡ some (off_of timed_qcom)
unfolding mode_index supports_mode switch_of
set_brightness-IsExclusive_example =
    set_brightness-IsExclusive kernel (led "white") 128 300 200 timed_upstream timed_qcom blink []
      is_breath (λ l. refl) refl (omega arith) refl (λ e. ground arith)

fall_back-AreBest_example :
    IsBest
      (supports_mode (led "white"))
      (mode_of (timed 5 6))
      (fall_back (supports_mode (led "white")) (mode_of (timed 5 6)))
    × IsBest
        (supports kernel [] three_leds)
        (mode_of (timed 5 6))
        (fall_back (supports kernel [] three_leds) (mode_of (timed 5 6)))
fall_back-AreBest_example = fall_back-AreBest kernel [] (led "white") three_leds (timed 5 6)

start_timer-AreSet_example :
    AreSet slow_kernel (led "white") 300 200 (start_timer slow_kernel (led "white") 64 300 200 [])
    × (turns (start_timer slow_kernel (led "white") 64 300 200 []).0 ≤ 20)
unfolding Appear
start_timer-AreSet_example =
    start_timer-AreSet slow_kernel (led "white") 300 200 3 64 [] refl refl
      (λ l le. (ground arith, ground arith)) (omega arith)

levels-AreFor_example :
    let ls =
      levels true (Rgb.new kernel (led "red") (led "green") (led "blue") "" []).roles violet in
    ((role : Role) → count role ls ≡ (if is_there true true true role then 1 else 0))
    × AllBelow 256 ls
    × (is_lit violet ≡ false → AllBelow 1 ls)
unfolding IsColor is_ok
levels-AreFor_example =
    levels-AreFor kernel (led "red") (led "green") (led "blue") "" [] true violet
      (omega arith, omega arith, omega arith) refl

run-IsShown_example :
    (run kernel plain phone ((microphone, request (pos 0)) ∷ history)).1
    ≡ set_notification_state kernel plain phone
        (shown ((microphone, request (pos 0)) ∷ history))
        (run kernel plain phone history).1
unfolding has_notification_devices is_listed
run-IsShown_example = run-IsShown kernel plain phone history microphone (request (pos 0)) refl refl

run-answers_example :
    is_answered
      (set_light_state kernel plain backlight
        (request (pos 7))
        (run kernel plain phone history).0
        (run kernel plain phone history).1).2
    ≡ (is_listed backlight (get_lights (run kernel plain phone history).0)
        || is_unguarded backlight)
run-answers_example = run-answers kernel plain phone history backlight (request (pos 7))
