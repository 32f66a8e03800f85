-- ===== src/Health/ChargingControl.antt =====
-- health/aidl/default/ChargingControl.h and ChargingControl.cpp. The switches of the build are the
-- fields of `Build`; a pointer to a node that the constructor found is a field of `ChargingControl`.
pub mod Search
pub mod Roundtrips
use Prim.Native.String.{String}
use text.Mathlib.Text as Text
use hardware_voltage_interfa.Base.{
  ℕ, zero, suc, ◌+◌, Bool, true, false, ◌&&◌, Option, none, some, List, [], ◌∷◌, if◌then◌else◌,
}
use hardware_voltage_interfa.Base.Int.{ℤ, to_i32}
use hardware_voltage_interfa.Health.Files.{
  Result, Done, ok, unsupported_operation, illegal_state, uncaught, Files, Numbers,
}

pub record ChargingEnabledNode : Type 0 where
  pub path : String
  pub value_true : String
  pub value_false : String
  pub supported_mode : Option ℕ

pub record ChargingLimitNode : Type 0 where
  pub min_path : String
  pub max_path : String

pub record ChargingLimitInfo : Type 0 where
  pub max : ℤ
  pub min : ℤ

-- TOGGLE, BYPASS, DEADLINE and LIMIT of the AIDL enumeration are different bits.
pub record Modes : Type 0 where
  pub toggle : ℕ
  pub bypass : ℕ
  pub deadline : ℕ
  pub limit : ℕ

pub record Build : Type 0 where
  pub supports_toggle : Bool
  pub supports_bypass : Bool
  pub supports_deadline : Bool
  pub supports_limit : Bool

-- The node of a feature that is not built in is null and is not used.
pub record ChargingControl : Type 0 where
  pub build : Build
  pub charging_enabled_node : ChargingEnabledNode
  pub charging_deadline_node : String
  pub charging_limit_node : ChargingLimitNode

-- The bits are different, so `|` is the sum.
unfoldable pub charging_enabled_nodes : Modes → List ChargingEnabledNode
charging_enabled_nodes m =
    record {
      path = "/sys/class/power_supply/battery/battery_charging_enabled";
      value_true = "1";
      value_false = "0";
      supported_mode = some (m.toggle + m.bypass);
    }
    ∷ record {
      path = "/sys/class/power_supply/battery/charging_enabled";
      value_true = "1";
      value_false = "0";
      supported_mode = some (m.toggle + m.bypass);
    }
    ∷ record {
      path = "/sys/class/power_supply/battery/input_suspend";
      value_true = "0";
      value_false = "1";
      supported_mode = some m.toggle;
    }
    ∷ record {
      path = "/sys/class/qcom-battery/input_suspend";
      value_true = "0";
      value_false = "1";
      supported_mode = some m.toggle;
    }
    ∷ []

abbrev pub charging_deadline_nodes : List String
charging_deadline_nodes = "/sys/class/power_supply/battery/charge_deadline" ∷ []

abbrev pub charging_limit_nodes : List ChargingLimitNode
charging_limit_nodes =
    record {
      min_path = "/sys/devices/platform/google,charger/charge_start_level";
      max_path = "/sys/devices/platform/google,charger/charge_stop_level";
    }
    ∷ []

-- The search of the constructor, for one kind of node. `can` tells whether the paths of a node can be
-- accessed after so many calls of `usleep`; a search returns how many there were.
module _ {A : Type 0} (can : ℕ → A → Bool) where
  unfoldable pub try_node : ℕ → ℕ → A → ℕ × Option A
  try_node zero t x = (t, none)
  try_node (suc retries) t x =
      let later = try_node retries (suc t) x in if can t x then (t, some x) else later

  -- The rest of a round, unless a node was found.
  unfoldable pub unless_found : ℕ × Option A → (ℕ → ℕ × Option A) → ℕ × Option A
  unless_found (t, some x) rest = (t, some x)
  unless_found (t, none) rest = rest t

  unfoldable pub try_nodes : List A → ℕ → ℕ × Option A
  unfolding try_node unless_found
  try_nodes [] t = (t, none)
  try_nodes (x ∷ xs) t = unless_found (try_node 10 t x) (try_nodes xs)

  -- `while (!node)`, of which the fuel is the number of rounds.
  unfoldable pub find_node : ℕ → List A → ℕ → ℕ × Option A
  unfolding try_nodes unless_found
  find_node zero xs t = (t, none)
  find_node (suc rounds) xs t = unless_found (try_nodes xs t) (find_node rounds xs)

unfoldable pub get_supported_mode : Modes → ChargingControl → ℕ
get_supported_mode m c =
    let mode =
      (if c.build.supports_toggle then m.toggle else 0)
      + (if c.build.supports_bypass then m.bypass else 0)
      + (if c.build.supports_deadline then m.deadline else 0)
      + (if c.build.supports_limit then m.limit else 0) in
    if c.build.supports_toggle
    then elim c.charging_enabled_node.supported_mode [ some n ↦ n | none ↦ mode ]
    else mode

module _ {W : Type 0} (files : Files W) (numbers : Numbers) (c : ChargingControl) where
  open files use {read, write}
  open numbers use {trim, to_string, stoll}

  unfoldable pub enabled_of : Option String → Result Bool
  enabled_of none = unsupported_operation
  enabled_of (some content) =
      if Text.◌==◌ (trim content) c.charging_enabled_node.value_true
      then ok true
      else if Text.◌==◌ (trim content) c.charging_enabled_node.value_false
      then ok false
      else illegal_state

  unfoldable pub get_charging_enabled : W → Result Bool
  unfolding enabled_of
  get_charging_enabled w =
      if c.build.supports_toggle
      then enabled_of (read c.charging_enabled_node.path w)
      else unsupported_operation

  unfoldable pub set_charging_enabled : Bool → W → W × Done
  set_charging_enabled enabled w =
      let value =
        if enabled
        then c.charging_enabled_node.value_true
        else c.charging_enabled_node.value_false in
      let done = write c.charging_enabled_node.path value w in
      if c.build.supports_toggle
      then (done.0, if done.1 then ok tt else unsupported_operation)
      else (w, unsupported_operation)

  -- `std::stoll`, whose exceptions nothing catches.
  unfoldable pub number_in : Option ℤ → Result ℤ
  number_in none = uncaught
  number_in (some n) = ok n

  unfoldable pub deadline_of : Option String → Result ℤ
  unfolding number_in
  deadline_of none = unsupported_operation
  deadline_of (some content) = number_in (stoll (trim content))

  unfoldable pub get_charging_deadline : W → Result ℤ
  unfolding deadline_of
  get_charging_deadline w =
      if c.build.supports_deadline
      then deadline_of (read c.charging_deadline_node w)
      else unsupported_operation

  unfoldable pub set_charging_deadline : ℤ → W → W × Done
  set_charging_deadline deadline w =
      let done = write c.charging_deadline_node (to_string deadline) w in
      if c.build.supports_deadline
      then (done.0, if done.1 then ok tt else illegal_state)
      else (w, unsupported_operation)

  -- The `long long` is narrowed to the `int32_t` of the field.
  unfoldable pub level_in : Option ℤ → Result ℤ
  level_in none = uncaught
  level_in (some n) = ok (to_i32 n)

  unfoldable pub limit_of : Option String → Result ℤ
  unfolding level_in
  limit_of none = unsupported_operation
  limit_of (some content) = level_in (stoll content)

  unfoldable pub limits_of : Result ℤ → Result ℤ → Result ChargingLimitInfo
  limits_of (ok low) (ok high) = ok (record { min = low; max = high })
  limits_of (ok low) unsupported_operation = unsupported_operation
  limits_of (ok low) illegal_state = illegal_state
  limits_of (ok low) uncaught = uncaught
  limits_of unsupported_operation high = unsupported_operation
  limits_of illegal_state high = illegal_state
  limits_of uncaught high = uncaught

  unfoldable pub get_charging_limit : W → Result ChargingLimitInfo
  unfolding limit_of limits_of
  get_charging_limit w =
      if c.build.supports_limit
      then limits_of (limit_of (read c.charging_limit_node.min_path w))
          (limit_of (read c.charging_limit_node.max_path w))
      else unsupported_operation

  -- The maximum is written first; the minimum is left alone if that fails.
  unfoldable pub set_charging_limit : ChargingLimitInfo → W → W × Done
  set_charging_limit limit w =
      let high = write c.charging_limit_node.max_path (to_string limit.max) w in
      let low = write c.charging_limit_node.min_path (to_string limit.min) high.0 in
      if c.build.supports_limit
      then if high.1
        then (low.0, if low.1 then ok tt else unsupported_operation)
        else (high.0, unsupported_operation)
      else (w, unsupported_operation)
