-- ===== src/Light/Models.antt =====
-- light/models (Color, Effect, State) and light/Utils.cpp: colours, effects, and what a request of
-- the AIDL interface becomes. `uint8_t` and `uint32_t` wrap around.
use hardware_voltage_interfa.Base.{
  ℕ, ◌+◌, ◌*◌, ◌/◌, ◌%◌, Bool, not, ◌&&◌, ◌||◌, ◌==◌, ltb, if◌then◌else◌,
}
use hardware_voltage_interfa.Base.Int.{ℤ, to_u32}

pub record Color : Type 0 where
  pub red : ℕ
  pub green : ℕ
  pub blue : ℕ

abbrev pub black : Color
black = record { red = 0; green = 0; blue = 0 }

-- A component under a brightness that the user has applied.
unfoldable pub scale : ℕ → ℕ → ℕ
scale alpha c = if ltb 0 alpha && ltb alpha 255 then c * alpha / 255 % 256 else c

-- `Color(uint32_t)`: from AARRGGBB.
unfoldable pub of_argb : ℕ → Color
unfolding scale
of_argb color =
    let alpha = color / 16777216 % 256 in
    record {
      red = scale alpha (color / 65536 % 256);
      green = scale alpha (color / 256 % 256);
      blue = scale alpha (color % 256);
    }

unfoldable pub is_lit : Color → Bool
is_lit c = not (c.red == 0) || not (c.green == 0) || not (c.blue == 0)

unfoldable pub to_brightness : Color → ℕ
to_brightness c = (77 * c.red + 150 * c.green + 29 * c.blue) / 256 % 256

-- The times are those of `timed`, which no other effect reads.
pub data Effect : Type 0 where
  fixed : Effect
  timed : ℕ → ℕ → Effect
  hardware : Effect

pub record State : Type 0 where
  pub color : Color
  pub effect : Effect

abbrev pub dark : State
dark = record { color = black; effect = fixed }

pub data FlashMode : Type 0 where
  flash_none : FlashMode
  flash_timed : FlashMode
  flash_hardware : FlashMode
  flash_unknown : ℤ → FlashMode

pub record HwLightState : Type 0 where
  pub color : ℤ
  pub flash_mode : FlashMode
  pub flash_on_ms : ℤ
  pub flash_off_ms : ℤ

unfoldable pub effect_of : HwLightState → FlashMode → Effect
effect_of v flash_none = fixed
effect_of v flash_timed = timed (to_u32 v.flash_on_ms) (to_u32 v.flash_off_ms)
effect_of v flash_hardware = hardware
effect_of v (flash_unknown mode) = fixed

unfoldable pub from_aidl : HwLightState → State
unfolding effect_of
from_aidl v = record { color = of_argb (to_u32 v.color); effect = effect_of v v.flash_mode }

unfoldable pub scale_brightness : ℕ → ℕ → ℕ
scale_brightness brightness max_brightness = brightness * max_brightness % 4294967296 / 255
