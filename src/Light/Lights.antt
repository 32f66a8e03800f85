-- ===== src/Light/Lights.antt =====
-- light/Lights.h and Lights.cpp: the service. A request returns the service, the log of the devices
-- and the status. An id that is none of the lights is `other_light`.
use hardware_voltage_interfa.Base.{Bool, List, [], ◌∷◌, ◌++◌, if◌then◌else◌}
use hardware_voltage_interfa.Base.Int.{ℤ}
use hardware_voltage_interfa.Light.Models.{State, HwLightState, from_aidl, is_lit, dark}
use hardware_voltage_interfa.Light.Sysfs.{Log, Sysfs}
use hardware_voltage_interfa.Light.Devices.{
  Build, Devices, has_backlight_devices, has_button_devices, has_keyboard_devices,
  has_notification_devices, set_backlight_state, set_buttons_state, set_keyboard_state,
  set_notification_state,
}

pub data LightType : Type 0 where
  backlight : LightType
  keyboard : LightType
  buttons : LightType
  battery : LightType
  notifications : LightType
  attention : LightType
  microphone : LightType
  camera : LightType
  other_light : ℤ → LightType

pub data Status : Type 0 where
  ok : Status
  unsupported_operation : Status

pub record Lights : Type 0 where
  pub lights : List LightType
  pub devices : Devices
  pub last_battery_state : State
  pub last_notifications_state : State
  pub last_attention_state : State
  pub last_microphone_state : State
  pub last_camera_state : State

unfoldable pub state_is_lit : State → Bool
unfolding is_lit
state_is_lit s = is_lit s.color

unfoldable pub if_has : Bool → List LightType → List LightType
if_has b ts = if b then ts else []

-- The lights that the devices make, in the order of the constructor.
unfoldable pub lights_of : Devices → List LightType
unfolding if_has has_backlight_devices has_button_devices has_keyboard_devices
    has_notification_devices
lights_of d =
    if_has (has_backlight_devices d) (backlight ∷ [])
    ++ if_has (has_button_devices d) (buttons ∷ [])
    ++ if_has (has_keyboard_devices d) (keyboard ∷ [])
    ++ if_has (has_notification_devices d)
        (battery ∷ notifications ∷ attention ∷ microphone ∷ camera ∷ [])

unfoldable pub new : Devices → Lights
unfolding lights_of
new d = record {
  lights = lights_of d;
  devices = d;
  last_battery_state = dark;
  last_notifications_state = dark;
  last_attention_state = dark;
  last_microphone_state = dark;
  last_camera_state = dark;
}

unfoldable pub get_lights : Lights → List LightType
get_lights s = s.lights

unfoldable pub notification_color : Lights → State
unfolding state_is_lit
notification_color s =
    if state_is_lit s.last_camera_state
    then s.last_camera_state
    else if state_is_lit s.last_microphone_state
    then s.last_microphone_state
    else if state_is_lit s.last_notifications_state
    then s.last_notifications_state
    else if state_is_lit s.last_attention_state
    then s.last_attention_state
    else if state_is_lit s.last_battery_state
    then s.last_battery_state
    else dark

module _ (sys : Sysfs) (b : Build) where
  unfoldable pub update_notification_color : Lights → Log → Log
  unfolding notification_color set_notification_state
  update_notification_color s l = set_notification_state sys b s.devices (notification_color s) l

  unfoldable pub refused : Lights → Log → Lights × Log × Status
  refused s l = (s, l, unsupported_operation)

  -- The state is stored and the notification devices show what follows from it.
  unfoldable pub updated : Lights → Log → Lights × Log × Status
  unfolding update_notification_color
  updated s l = (s, update_notification_color s l, ok)

  unfoldable pub set_state_of : LightType → State → Lights → Log → Lights × Log × Status
  unfolding updated refused has_backlight_devices has_button_devices has_keyboard_devices
      has_notification_devices set_backlight_state set_keyboard_state set_buttons_state
  set_state_of backlight st s l =
      if has_backlight_devices s.devices
      then (s, set_backlight_state sys s.devices st l, ok)
      else refused s l
  set_state_of keyboard st s l =
      if has_keyboard_devices s.devices
      then (s, set_keyboard_state sys s.devices st l, ok)
      else refused s l
  set_state_of buttons st s l =
      if has_button_devices s.devices
      then (s, set_buttons_state sys s.devices st l, ok)
      else refused s l
  set_state_of battery st s l =
      if has_notification_devices s.devices
      then updated (record s { last_battery_state = st }) l
      else refused s l
  set_state_of notifications st s l =
      if has_notification_devices s.devices
      then updated (record s { last_notifications_state = st }) l
      else refused s l
  set_state_of attention st s l =
      if has_notification_devices s.devices
      then updated (record s { last_attention_state = st }) l
      else refused s l
  set_state_of microphone st s l = updated (record s { last_microphone_state = st }) l
  set_state_of camera st s l = updated (record s { last_camera_state = st }) l
  set_state_of (other_light id) st s l = refused s l

  unfoldable pub set_light_state : LightType → HwLightState → Lights → Log → Lights × Log × Status
  unfolding set_state_of from_aidl
  set_light_state id hw s l = set_state_of id (from_aidl hw) s l
