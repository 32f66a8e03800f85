-- ===== src/Light/Devices.antt =====
-- light/Devices.h and Devices.cpp: the devices that there are, by what they light. The build flag
-- SCAN_FOR_BACKLIGHT_DEVICES and the directories of /sys/class/backlight are parameters.
use Prim.Native.String.{String}
use hardware_voltage_interfa.Base.{Bool, true, false, not, ◌&&◌, ◌||◌, List, [], ◌∷◌, if◌then◌else◌}
use hardware_voltage_interfa.Light.Models.{State}
use hardware_voltage_interfa.Light.Sysfs.{Log, Sysfs}
use hardware_voltage_interfa.Light.LedDevice.{LedDevice}
use hardware_voltage_interfa.Light.LedDevice as Led
use hardware_voltage_interfa.Light.BacklightDevice.{BacklightDevice}
use hardware_voltage_interfa.Light.BacklightDevice as Backlight
use hardware_voltage_interfa.Light.RgbLedDevice.{RgbLedDevice}
use hardware_voltage_interfa.Light.RgbLedDevice as Rgb

pub record Build : Type 0 where
  pub scan_for_backlight_devices : Bool
  pub snap_rgb_to_pure : Bool

pub record Devices : Type 0 where
  pub backlight_devices : List BacklightDevice
  pub backlight_led_devices : List LedDevice
  pub button_led_devices : List LedDevice
  pub keyboard_led_devices : List LedDevice
  pub notification_rgb_led_devices : List RgbLedDevice
  pub notification_led_devices : List LedDevice

abbrev pub backlight_names : List String
backlight_names = "backlight" ∷ "panel0-backlight" ∷ "panel0-backlight-ex" ∷ "sprd_backlight" ∷ []

abbrev pub led_backlight_names : List String
led_backlight_names = "lcd-backlight" ∷ "lcd-backlight-ex" ∷ "lcd_backlight0" ∷ []

abbrev pub button_names : List String
button_names = "button-backlight" ∷ "button-backlight1" ∷ "button-backlight2" ∷ []

abbrev pub keyboard_names : List String
keyboard_names = "keyboard-backlight" ∷ []

abbrev pub rgb_names : List (String × String × String × String)
rgb_names =
    ("red", "green", "blue", "/sys/class/leds/rgb/rgb_blink")
    ∷ ("red:indicator", "green:indicator", "blue:indicator", "")
    ∷ ("red:status", "green:status", "blue:status", "")
    ∷ []

abbrev pub notification_names : List String
notification_names = "charging" ∷ "left" ∷ "white" ∷ "white:indicator" ∷ "white:status" ∷ []

unfoldable pub is_empty : {A : Type 0} → List A → Bool
is_empty [] = true
is_empty (x ∷ xs) = false

module _ (sys : Sysfs) (l : Log) where
  -- The devices of these names that there are.
  unfoldable pub backlights : List String → List BacklightDevice
  unfolding Backlight.new Backlight.is_ok
  backlights [] = []
  backlights (name ∷ names) =
      let rest = backlights names in
      let device = Backlight.new sys name l in
      if Backlight.is_ok sys device l then device ∷ rest else rest

  unfoldable pub leds : List String → List LedDevice
  unfolding Led.new Led.is_ok
  leds [] = []
  leds (name ∷ names) =
      let rest = leds names in
      let device = Led.new sys name l in if Led.is_ok sys device l then device ∷ rest else rest

  unfoldable pub rgb_leds : List (String × String × String × String) → List RgbLedDevice
  unfolding Led.new Rgb.new Rgb.is_any_ok
  rgb_leds [] = []
  rgb_leds (names ∷ more) =
      let rest = rgb_leds more in
      let device =
        Rgb.new sys (Led.new sys names.0 l) (Led.new sys names.1 l) (Led.new sys names.2 l) names.3
          l in
      if Rgb.is_any_ok sys device then device ∷ rest else rest

  unfoldable pub get_backlight_devices : Build → List String → List BacklightDevice
  unfolding backlights is_empty
  get_backlight_devices b directories =
      let known = backlights backlight_names in
      if b.scan_for_backlight_devices && is_empty known then backlights directories else known

  unfoldable pub get_backlight_led_devices : List LedDevice
  unfolding leds
  get_backlight_led_devices = leds led_backlight_names

  unfoldable pub get_button_led_devices : List LedDevice
  unfolding leds
  get_button_led_devices = leds button_names

  unfoldable pub get_keyboard_led_devices : List LedDevice
  unfolding leds
  get_keyboard_led_devices = leds keyboard_names

  unfoldable pub get_notification_rgb_led_devices : List RgbLedDevice
  unfolding rgb_leds
  get_notification_rgb_led_devices = rgb_leds rgb_names

  unfoldable pub get_notification_led_devices : List LedDevice
  unfolding leds
  get_notification_led_devices = leds notification_names

  unfoldable pub new : Build → List String → Devices
  unfolding get_backlight_devices get_backlight_led_devices get_button_led_devices
      get_keyboard_led_devices get_notification_rgb_led_devices get_notification_led_devices
  new b directories = record {
    backlight_devices = get_backlight_devices b directories;
    backlight_led_devices = get_backlight_led_devices;
    button_led_devices = get_button_led_devices;
    keyboard_led_devices = get_keyboard_led_devices;
    notification_rgb_led_devices = get_notification_rgb_led_devices;
    notification_led_devices = get_notification_led_devices;
  }

unfoldable pub has_backlight_devices : Devices → Bool
unfolding is_empty
has_backlight_devices d =
    not (is_empty d.backlight_devices) || not (is_empty d.backlight_led_devices)

unfoldable pub has_button_devices : Devices → Bool
unfolding is_empty
has_button_devices d = not (is_empty d.button_led_devices)

unfoldable pub has_keyboard_devices : Devices → Bool
unfolding is_empty
has_keyboard_devices d = not (is_empty d.keyboard_led_devices)

unfoldable pub has_notification_devices : Devices → Bool
unfolding is_empty
has_notification_devices d =
    not (is_empty d.notification_rgb_led_devices) || not (is_empty d.notification_led_devices)

module _ (sys : Sysfs) where
  -- The loops over the devices, whose results are not used.
  unfoldable pub set_backlights : State → List BacklightDevice → Log → Log
  unfolding Backlight.set_state
  set_backlights s [] l = l
  set_backlights s (d ∷ ds) l = set_backlights s ds (Backlight.set_state sys d s l).0

  unfoldable pub set_leds : State → List LedDevice → Log → Log
  unfolding Led.set_state
  set_leds s [] l = l
  set_leds s (d ∷ ds) l = set_leds s ds (Led.set_state sys d s l).0

  unfoldable pub set_rgb_leds : Build → State → List RgbLedDevice → Log → Log
  unfolding Rgb.set_state
  set_rgb_leds b s [] l = l
  set_rgb_leds b s (d ∷ ds) l = set_rgb_leds b s ds (Rgb.set_state sys b.snap_rgb_to_pure d s l).0

  unfoldable pub set_backlight_state : Devices → State → Log → Log
  unfolding set_backlights set_leds
  set_backlight_state d s l =
      set_leds s d.backlight_led_devices (set_backlights s d.backlight_devices l)

  unfoldable pub set_buttons_state : Devices → State → Log → Log
  unfolding set_leds
  set_buttons_state d s l = set_leds s d.button_led_devices l

  unfoldable pub set_keyboard_state : Devices → State → Log → Log
  unfolding set_leds
  set_keyboard_state d s l = set_leds s d.keyboard_led_devices l

  unfoldable pub set_notification_state : Build → Devices → State → Log → Log
  unfolding set_leds set_rgb_leds
  set_notification_state b d s l =
      set_leds s d.notification_led_devices (set_rgb_leds b s d.notification_rgb_led_devices l)
