-- ===== src/Health/FastCharge.antt =====
-- health/aidl/default/FastCharge.h and FastCharge.cpp. The macros of the build are the fields of
-- `FastChargeConfig`; a mode of the AIDL enumeration that is none of the three is `other_mode`.
use Prim.Native.String.{String}
use text.Mathlib.Text as Text
use hardware_voltage_interfa.Base.{ℕ, ◌+◌, Bool, false, Option, none, some, ◌==◌, if◌then◌else◌}
use hardware_voltage_interfa.Health.Files.{
  Result, ok, unsupported_operation, uncaught, Files, Numbers,
}

pub data FastChargeMode : Type 0 where
  no_fast_charge : FastChargeMode
  fast_charge : FastChargeMode
  super_fast_charge : FastChargeMode
  other_mode : ℕ → FastChargeMode

-- The bits of the two modes that charge fast; that of NONE is 0.
pub record FastChargeConfig : Type 0 where
  pub node : Option String
  pub value_none : Option String
  pub value_fast_charge : Option String
  pub value_super_fast_charge : Option String
  pub fast_charge_bit : ℕ
  pub super_fast_charge_bit : ℕ

unfoldable pub bit_if : Option String → ℕ → ℕ
bit_if none n = 0
bit_if (some value) n = n

unfoldable pub supported_modes : FastChargeConfig → ℕ
unfolding bit_if
supported_modes c = elim c.node [
  | none ↦ 0
  | some node ↦
      bit_if c.value_fast_charge c.fast_charge_bit
      + bit_if c.value_super_fast_charge c.super_fast_charge_bit
]

-- `value == optional`
unfoldable pub is_value : String → Option String → Bool
is_value s none = false
is_value s (some t) = Text.◌==◌ s t

unfoldable pub mode_to_value : FastChargeConfig → String → Option FastChargeMode
unfolding is_value
mode_to_value c s =
    if is_value s c.value_none
    then some no_fast_charge
    else if is_value s c.value_fast_charge
    then some fast_charge
    else if is_value s c.value_super_fast_charge
    then some super_fast_charge
    else none

unfoldable pub value_to_mode : FastChargeConfig → FastChargeMode → Option String
value_to_mode c no_fast_charge = c.value_none
value_to_mode c fast_charge = c.value_fast_charge
value_to_mode c super_fast_charge = c.value_super_fast_charge
value_to_mode c (other_mode n) = none

module _ {W : Type 0} (files : Files W) (numbers : Numbers) (c : FastChargeConfig) where
  open files use {read, write}
  open numbers use {trim}

  unfoldable pub mode_of : Option FastChargeMode → Result FastChargeMode
  mode_of none = unsupported_operation
  mode_of (some mode) = ok mode

  unfoldable pub mode_in : Option String → Result FastChargeMode
  unfolding mode_of mode_to_value
  mode_in none = unsupported_operation
  mode_in (some content) = mode_of (mode_to_value c (trim content))

  -- Where modes are supported there is a node.
  unfoldable pub get_fast_charge_mode : W → Result FastChargeMode
  unfolding supported_modes mode_in
  get_fast_charge_mode w =
      if supported_modes c == 0
      then unsupported_operation
      else elim c.node [ none ↦ unsupported_operation | some node ↦ mode_in (read node w) ]

  -- Values without a node, where the code reads an `optional` that is empty, are `uncaught`.
  unfoldable pub set_value : FastChargeMode → Option String → W → W × Result FastChargeMode
  unfolding get_fast_charge_mode
  set_value mode none w = (w, unsupported_operation)
  set_value mode (some value) w = elim c.node [
    | none ↦ (w, uncaught)
    | some node ↦
        let done = write node value w in
        (done.0, if done.1 then get_fast_charge_mode done.0 else unsupported_operation)
  ]

  unfoldable pub set_fast_charge_mode : FastChargeMode → W → W × Result FastChargeMode
  unfolding set_value value_to_mode
  set_fast_charge_mode mode w = set_value mode (value_to_mode c mode) w
