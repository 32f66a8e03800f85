-- ===== src/Light/BacklightDevice.antt =====
-- light/devices/BacklightDevice.h and BacklightDevice.cpp: a backlight of /sys/class/backlight.
use Prim.Native.String.{String}
use hardware_voltage_interfa.Base.{ℕ, Bool, some, none}
use hardware_voltage_interfa.Base.Int.{pos}
use hardware_voltage_interfa.Light.Models.{State, to_brightness, scale_brightness}
use hardware_voltage_interfa.Light.Sysfs.{
  brightness, max_brightness, backlight_node, number, Log, Sysfs, write_to_file,
}

pub record BacklightDevice : Type 0 where
  pub name : String
  pub max_brightness_value : ℕ

module _ (sys : Sysfs) where
  open sys use {good, read_number}

  unfoldable pub new : String → Log → BacklightDevice
  new name l = record {
    name = name;
    max_brightness_value = elim (read_number l (backlight_node name max_brightness)) [
      | some n ↦ n
      | none ↦ 255
    ];
  }

  unfoldable pub is_ok : BacklightDevice → Log → Bool
  is_ok d l = good l (backlight_node d.name brightness)

  unfoldable pub set_brightness : BacklightDevice → ℕ → Log → Log × Bool
  unfolding write_to_file scale_brightness
  set_brightness d value l =
      write_to_file sys (backlight_node d.name brightness)
        (number (pos (scale_brightness value d.max_brightness_value))) l

  unfoldable pub set_state : BacklightDevice → State → Log → Log × Bool
  unfolding set_brightness to_brightness
  set_state d s l = set_brightness d (to_brightness s.color) l
