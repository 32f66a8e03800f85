-- ===== src/Health/ChargingControl/Roundtrips.antt =====
-- health/aidl/default/ChargingControl.cpp: what was set is what is answered.
use Prim.Native.String.{String}
use text.Mathlib.TextPositions.{eq_refl}
use text.Mathlib.TextEquality.{eq_iff}
use hardware_voltage_interfa.Base.{◌≡◌, ◌≢◌, ◌∙◌, ap, sym, some, Bool, true, false, arith}
use hardware_voltage_interfa.Base.Int.{ℤ, pos, negsuc, ◌≤ℤ◌, to_i32, to_u32}
use hardware_voltage_interfa.Health.Files.{ok, Files, Numbers, AreFaithful, IsLong}
use hardware_voltage_interfa.Health.ChargingControl.{
  ChargingControl, ChargingLimitInfo, get_charging_enabled, set_charging_enabled,
  get_charging_deadline, set_charging_deadline, get_charging_limit, set_charging_limit, enabled_of,
  deadline_of, limit_of, limits_of, number_in, level_in,
}

-- An integer of 32 bits.
unfoldable pub IsLevel : ℤ → Type 0
IsLevel n = (negsuc 2147483647 ≤ℤ n) × (n ≤ℤ pos 2147483647)

IsLevel-IsLong : (n : ℤ) → IsLevel n → IsLong n
unfolding IsLevel IsLong
IsLevel-IsLong n h = ground arith

to_i32_same : (n : ℤ) → IsLevel n → to_i32 n ≡ n
unfolding IsLevel to_i32 to_u32
to_i32_same n h = ground arith

module _ {W : Type 0} (files : Files W) (numbers : Numbers) (c : ChargingControl)
    (faithful : AreFaithful files numbers) where
  open numbers use {trim}

  -- Charging that was switched on or off is reported so: the node has two values, which no blanks
  -- surround.
  pub get-set_charging_enabled :
      (enabled : Bool) (w : W)
      → c.charging_enabled_node.value_true ≢ c.charging_enabled_node.value_false
      → trim c.charging_enabled_node.value_true ≡ c.charging_enabled_node.value_true
      → trim c.charging_enabled_node.value_false ≡ c.charging_enabled_node.value_false
      → (set_charging_enabled files numbers c enabled w).1 ≡ ok tt
      → get_charging_enabled files numbers c (set_charging_enabled files numbers c enabled w).0
        ≡ ok enabled
  unfolding get_charging_enabled set_charging_enabled enabled_of
  get-set_charging_enabled true w ne t f h =
      let value = c.charging_enabled_node.value_true in
      let (content, found, same) =
        faithful.read-write c.charging_enabled_node.path value w (ground arith) in
      ground (arith, eq_refl value)
  get-set_charging_enabled false w ne t f h =
      let value = c.charging_enabled_node.value_false in
      let (content, found, same) =
        faithful.read-write c.charging_enabled_node.path value w (ground arith) in
      ground (arith, eq_refl value, eq_iff value c.charging_enabled_node.value_true)

  -- What a number was written to is read as the number.
  stoll-read :
      (p : String) (n : ℤ) (w : W)
      → IsLong n
      → (files.write p (numbers.to_string n) w).1 ≡ true
      → (content : String) × (files.read p (files.write p (numbers.to_string n) w).0 ≡ some content)
        × (numbers.stoll content ≡ some n)
        × (numbers.stoll (trim content) ≡ some n)
  stoll-read p n w long h =
      let (content, found, same) = faithful.read-write p (numbers.to_string n) w h in
      let read_back : numbers.stoll (trim content) ≡ some n =
        ap numbers.stoll (same ∙ faithful.trim-to_string n) ∙ faithful.stoll-to_string n long in
      (content, found, sym (faithful.stoll-trim content) ∙ read_back, read_back)

  -- A deadline of 64 bits that was set is the one reported.
  pub get-set_charging_deadline :
      (deadline : ℤ) (w : W)
      → IsLong deadline
      → (set_charging_deadline files numbers c deadline w).1 ≡ ok tt
      → get_charging_deadline files numbers c (set_charging_deadline files numbers c deadline w).0
        ≡ ok deadline
  unfolding get_charging_deadline set_charging_deadline deadline_of number_in
  get-set_charging_deadline deadline w long h =
      let (content, found, plain, trimmed) =
        stoll-read c.charging_deadline_node deadline w long (ground arith) in
      ground arith

  -- A limit that was set, which has levels of 32 bits, is the one reported, though the code does not
  -- trim what it reads: the two levels have files of their own.
  pub get-set_charging_limit :
      (limit : ChargingLimitInfo) (w : W)
      → IsLevel limit.min
      → IsLevel limit.max
      → c.charging_limit_node.min_path ≢ c.charging_limit_node.max_path
      → (set_charging_limit files numbers c limit w).1 ≡ ok tt
      → get_charging_limit files numbers c (set_charging_limit files numbers c limit w).0 ≡ ok limit
  unfolding get_charging_limit set_charging_limit limit_of limits_of level_in IsLevel
  get-set_charging_limit limit w below above ne h =
      let (one, found, reads, trimmed) =
        stoll-read low limit.min first (IsLevel-IsLong limit.min below) (ground arith) in
      let (two, there, reads_too, trimmed_too) =
        stoll-read high limit.max w (IsLevel-IsLong limit.max above) (ground arith) in
      ground (
        arith,
        faithful.read-write_ne low high (numbers.to_string limit.min) first ne,
        to_i32_same limit.min below,
        to_i32_same limit.max above,
      )
    where
      low : String
      low = c.charging_limit_node.min_path

      high : String
      high = c.charging_limit_node.max_path

      first : W
      first = (files.write high (numbers.to_string limit.max) w).0
