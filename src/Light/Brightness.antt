-- ===== src/Light/Brightness.antt =====
-- light/models/Color.cpp, light/Utils.cpp and the numbers of light/devices/LedDevice.cpp: what the
-- arithmetic on bytes and words gives.
use native.Mathlib.Nat.{mul-le-mul_left, mul-le-mul_right}
use mathlib.Core.Path.{subst}
use hardware_voltage_interfa.Base.{
  ℕ, ◌+◌, ◌*◌, ◌/◌, ◌%◌, ◌≤◌, ◌<◌, ◌≡◌, true, ltb, ◌&&◌, if◌then◌else◌, inl, inr, sym, Bool-cases,
  arith,
}
use hardware_voltage_interfa.Base.Int.{pos_part, neg_part, to_i32, to_u32, ◌-ℤ◌}
use hardware_voltage_interfa.Light.Models.{Color, scale, to_brightness, scale_brightness}
use hardware_voltage_interfa.Light.LedDevice.{ramp_times}

-- Components that fit their bytes.
unfoldable pub IsColor : Color → Type 0
IsColor c = (c.red < 256) × (c.green < 256) × (c.blue < 256)

scale_bound : (alpha c : ℕ) → c < 256 → scale alpha c ≤ c
unfolding scale
scale_bound alpha c h = elim (Bool-cases (ltb 0 alpha && ltb alpha 255)) [
  | inl t ↦
      subst (λ b. (if b then c * alpha / 255 % 256 else c) ≤ c) (sym t)
        (scaled (mul-le-mul_left c (below t)))
  | inr f ↦ subst (λ b. (if b then c * alpha / 255 % 256 else c) ≤ c) (sym f) (omega arith)
]
  where
    below : (ltb 0 alpha && ltb alpha 255) ≡ true → alpha ≤ 255
    below t = ground arith

    scaled : c * alpha ≤ c * 255 → c * alpha / 255 % 256 ≤ c
    scaled le = omega arith

-- The brightness of a colour lies between its least and its greatest component.
pub to_brightness_bounds :
    (c : Color) (low high : ℕ)
    → high < 256
    → low ≤ c.red
    → low ≤ c.green
    → low ≤ c.blue
    → c.red ≤ high
    → c.green ≤ high
    → c.blue ≤ high
    → (low ≤ to_brightness c) × (to_brightness c ≤ high)
unfolding to_brightness
to_brightness_bounds c low high h r g b r' g' b' = (omega arith, omega arith)

-- A byte scaled to a device whose maximum does not overflow: within the maximum, all of it for 255,
-- none for 0, and never less for a greater byte.
pub scale_brightness_lem :
    (v w max : ℕ)
    → v ≤ w
    → w < 256
    → max ≤ 16843009
    → (scale_brightness v max ≤ scale_brightness w max)
      × (scale_brightness w max ≤ max)
      × (scale_brightness 255 max ≡ max)
      × (scale_brightness 0 max ≡ 0)
unfolding scale_brightness
scale_brightness_lem v w max le h m = (
  steps (mul-le-mul_right max le) (mul-le-mul_right max below),
  most (mul-le-mul_right max below),
  omega arith,
  omega arith,
)
  where
    below : w ≤ 255
    below = omega arith

    steps :
        v * max ≤ w * max
        → w * max ≤ 255 * max
        → v * max % 4294967296 / 255 ≤ w * max % 4294967296 / 255
    steps a b = omega arith

    most : w * max ≤ 255 * max → w * max % 4294967296 / 255 ≤ max
    most b = omega arith

-- Two ramps of eight steps and the pause between fill the time that a flash is on, but for less than
-- sixteen milliseconds, and neither the steps nor the pause are negative.
pub ramp_times_lem :
    (on : ℕ)
    → on < 4294967296
    → let r = ramp_times on in
      (neg_part r.0 ≡ 0)
      × (neg_part r.1 ≡ 0)
      × (16 * pos_part r.0 + pos_part r.1 ≤ on)
      × (on < 16 * pos_part r.0 + pos_part r.1 + 16)
unfolding ramp_times to_i32 to_u32 ◌-ℤ◌
ramp_times_lem on h = ground arith
