-- ===== src/Light/Blend.antt =====
-- light/devices/RgbLedDevice.cpp: which LEDs are set, and how bright.
use Prim.Native.String.{String}
use mathlib.Core.Path.{subst}
use hardware_voltage_interfa.Base.{
  ℕ, ◌+◌, ◌<◌, ◌≡◌, sym, Bool, true, false, ◌||◌, List, [], ◌∷◌, ◌==◌, if◌then◌else◌, arith,
}
use hardware_voltage_interfa.Light.Models.{Color, is_lit}
use hardware_voltage_interfa.Light.Brightness.{IsColor}
use hardware_voltage_interfa.Light.Sysfs.{Log, Sysfs}
use hardware_voltage_interfa.Light.LedDevice.{LedDevice, is_ok}
use hardware_voltage_interfa.Light.RgbLedDevice.{
  Role, red_led, green_led, blue_led, add_role, new, levels,
}

abbrev role_index : Role → ℕ
role_index red_led = 0
role_index green_led = 1
role_index blue_led = 2

-- How often an LED is set.
unfoldable pub count : Role → List (Role × ℕ) → ℕ
count r [] = 0
count r ((s, value) ∷ ls) = (if role_index s == role_index r then 1 else 0) + count r ls

-- Every LED is set below a bound.
unfoldable pub AllBelow : ℕ → List (Role × ℕ) → Type 0
AllBelow n [] = Unit
AllBelow n ((r, value) ∷ ls) = (value < n) × AllBelow n ls

-- The LEDs that there are.
unfoldable pub roles_of : Bool → Bool → Bool → ℕ
roles_of r g b = (if r then 1 else 0) + (if g then 2 else 0) + (if b then 4 else 0)

unfoldable pub is_there : Bool → Bool → Bool → Role → Bool
is_there r g b red_led = r
is_there r g b green_led = g
is_there r g b blue_led = b

count-levels :
    (snaps r g b : Bool) (c : Color) (role : Role)
    → (r || g || b) ≡ true
    → count role (levels snaps (roles_of r g b) c) ≡ (if is_there r g b role then 1 else 0)
unfolding levels roles_of count is_there
count-levels s false false false c role h = ground arith
count-levels s false false true c role h = ground arith
count-levels s false true false c role h = ground arith
count-levels s false true true c role h = ground arith
count-levels s true false false c role h = ground arith
count-levels s true false true c role h = ground arith
count-levels s true true false c role h = ground arith
count-levels s true true true c role h = ground arith

levels-AllBelow :
    (snaps r g b : Bool) (c : Color)
    → IsColor c
    → (r || g || b) ≡ true
    → AllBelow 256 (levels snaps (roles_of r g b) c)
      × (is_lit c ≡ false → AllBelow 1 (levels snaps (roles_of r g b) c))
unfolding levels roles_of AllBelow is_lit IsColor
levels-AllBelow s false false false c i h = (ground arith, λ u. ground arith)
levels-AllBelow s false false true c i h = (ground arith, λ u. ground arith)
levels-AllBelow s false true false c i h = (ground arith, λ u. ground arith)
levels-AllBelow s false true true c i h = (ground arith, λ u. ground arith)
levels-AllBelow s true false false c i h = (ground arith, λ u. ground arith)
levels-AllBelow s true false true c i h = (ground arith, λ u. ground arith)
levels-AllBelow s true true false c i h = (ground arith, λ u. ground arith)
levels-AllBelow s true true true c i h = (ground arith, λ u. ground arith)

add_roles :
    (r g b : Bool)
    → add_role b blue_led (add_role g green_led (add_role r red_led 0)) ≡ roles_of r g b
unfolding add_role roles_of
add_roles r g b = ground arith

-- A device made of three LEDs of which one at least is there: whatever the colour, each LED that is
-- there is set once and no other is, to a brightness that fits a byte, and to zero where the colour
-- is not lit.
pub levels-AreFor :
    (sys : Sysfs) (red green blue : LedDevice) (node : String) (l : Log) (snaps : Bool) (c : Color)
    → IsColor c
    → (is_ok sys red l || is_ok sys green l || is_ok sys blue l) ≡ true
    → let ls = levels snaps (new sys red green blue node l).roles c in
      ((role : Role)
        → count role ls ≡ (
            if is_there (is_ok sys red l) (is_ok sys green l) (is_ok sys blue l) role
            then 1
            else 0))
      × AllBelow 256 ls
      × (is_lit c ≡ false → AllBelow 1 ls)
unfolding new
levels-AreFor sys red green blue node l snaps c i h =
    subst
      (λ n.
        ((role : Role)
          → count role (levels snaps n c) ≡ (
              if is_there (is_ok sys red l) (is_ok sys green l) (is_ok sys blue l) role
              then 1
              else 0))
        × AllBelow 256 (levels snaps n c)
        × (is_lit c ≡ false → AllBelow 1 (levels snaps n c)))
      (sym (add_roles (is_ok sys red l) (is_ok sys green l) (is_ok sys blue l)))
      (
        λ role. count-levels snaps _ _ _ c role h,
        (levels-AllBelow snaps _ _ _ c i h).0,
        (levels-AllBelow snaps _ _ _ c i h).1,
      )
