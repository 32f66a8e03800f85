-- ===== src/Light/Requests.antt =====
-- light/Lights.cpp: what requests come to, whatever came before.
use hardware_voltage_interfa.Base.{
  ℕ, ◌≡◌, refl, Bool, true, false, ◌||◌, List, [], ◌∷◌, ◌==◌, if◌then◌else◌, arith,
}
use hardware_voltage_interfa.Light.Models.{State, HwLightState, from_aidl, is_lit, dark}
use hardware_voltage_interfa.Light.Sysfs.{Log, Sysfs}
use hardware_voltage_interfa.Light.Devices.{
  Build, Devices, has_notification_devices, set_notification_state,
}
use hardware_voltage_interfa.Light.Lights.{
  LightType, backlight, keyboard, buttons, battery, notifications, attention, microphone, camera,
  other_light, Status, ok, unsupported_operation, Lights, new, get_lights, lights_of, if_has,
  notification_color, set_light_state,
}

abbrev pub Request : Type 0
Request = LightType × HwLightState

abbrev light_index : LightType → ℕ
light_index backlight = 0
light_index keyboard = 1
light_index buttons = 2
light_index battery = 3
light_index notifications = 4
light_index attention = 5
light_index microphone = 6
light_index camera = 7
light_index (other_light id) = 8

abbrev same_light : LightType → LightType → Bool
same_light t u = light_index t == light_index u

-- The state of the last request for a light, of a history whose newest request comes first.
unfoldable pub last_state : LightType → List Request → State
last_state t [] = dark
last_state t ((u, hw) ∷ rs) = if same_light u t then from_aidl hw else last_state t rs

unfoldable pub first_lit : List State → State
first_lit [] = dark
first_lit (s ∷ ss) = if is_lit s.color then s else first_lit ss

-- What the notification devices are to show after a history: the first light that is lit, by rank.
unfoldable pub shown : List Request → State
unfolding first_lit last_state
shown rs = first_lit (
    last_state camera rs
    ∷ last_state microphone rs
    ∷ last_state notifications rs
    ∷ last_state attention rs
    ∷ last_state battery rs
    ∷ [])

unfoldable pub is_listed : LightType → List LightType → Bool
is_listed t [] = false
is_listed t (u ∷ us) = same_light u t || is_listed t us

unfoldable pub is_unguarded : LightType → Bool
is_unguarded t = same_light microphone t || same_light camera t

unfoldable pub is_answered : Status → Bool
is_answered ok = true
is_answered unsupported_operation = false

module _ (sys : Sysfs) (b : Build) where
  -- The service and the log after a history.
  unfoldable pub run : Devices → List Request → Lights × Log
  unfolding new set_light_state
  run d [] = (new d, [])
  run d ((t, hw) ∷ rs) =
      let before = run d rs in
      let after = set_light_state sys b t hw before.0 before.1 in (after.0, after.1)

  -- The service holds the last state asked for, of each light that it may show.
  unfoldable pub IsAfter : Devices → List Request → Lights → Type 0
  IsAfter d rs s =
      (s.devices ≡ d)
      × (s.lights ≡ lights_of d)
      × (s.last_camera_state ≡ last_state camera rs)
      × (s.last_microphone_state ≡ last_state microphone rs)
      × (s.last_notifications_state ≡ last_state notifications rs)
      × (s.last_attention_state ≡ last_state attention rs)
      × (s.last_battery_state ≡ last_state battery rs)

  set_light_state-IsAfter :
      (d : Devices) (rs : List Request) (t : LightType) (hw : HwLightState) (s : Lights) (l : Log)
      → has_notification_devices d ≡ true
      → IsAfter d rs s
      → IsAfter d ((t, hw) ∷ rs) (set_light_state sys b t hw s l).0
  unfolding set_light_state last_state IsAfter
  set_light_state-IsAfter d rs backlight hw s l h a = ground arith
  set_light_state-IsAfter d rs keyboard hw s l h a = ground arith
  set_light_state-IsAfter d rs buttons hw s l h a = ground arith
  set_light_state-IsAfter d rs battery hw s l h a = ground arith
  set_light_state-IsAfter d rs notifications hw s l h a = ground arith
  set_light_state-IsAfter d rs attention hw s l h a = ground arith
  set_light_state-IsAfter d rs microphone hw s l h a = ground arith
  set_light_state-IsAfter d rs camera hw s l h a = ground arith
  set_light_state-IsAfter d rs (other_light id) hw s l h a = ground arith

  run-IsAfter :
      (d : Devices) (rs : List Request)
      → has_notification_devices d ≡ true
      → IsAfter d rs (run d rs).0
  unfolding run last_state IsAfter new
  run-IsAfter d [] h = (refl, refl, refl, refl, refl, refl, refl)
  run-IsAfter d ((t, hw) ∷ rs) h =
      set_light_state-IsAfter d rs t hw (run d rs).0 (run d rs).1 h (run-IsAfter d rs h)

  notification_color-IsShown :
      (d : Devices) (rs : List Request) (s : Lights)
      → IsAfter d rs s
      → notification_color s ≡ shown rs
  unfolding IsAfter notification_color shown first_lit
  notification_color-IsShown d rs s a = ground arith

  set_light_state-updates :
      (t : LightType) (hw : HwLightState) (s : Lights) (l : Log)
      → is_listed t (battery ∷ notifications ∷ attention ∷ microphone ∷ camera ∷ []) ≡ true
      → has_notification_devices s.devices ≡ true
      → let after = set_light_state sys b t hw s l in
        after.1 ≡ set_notification_state sys b s.devices (notification_color after.0) l
  unfolding set_light_state is_listed
  set_light_state-updates backlight hw s l i h = ground arith
  set_light_state-updates keyboard hw s l i h = ground arith
  set_light_state-updates buttons hw s l i h = ground arith
  set_light_state-updates battery hw s l i h = ground arith
  set_light_state-updates notifications hw s l i h = ground arith
  set_light_state-updates attention hw s l i h = ground arith
  set_light_state-updates microphone hw s l i h = ground arith
  set_light_state-updates camera hw s l i h = ground arith
  set_light_state-updates (other_light id) hw s l i h = ground arith

  -- A request for one of the lights that share the notification devices makes them show, after any
  -- history of requests, the state last asked for of the first light that is lit, in the order
  -- camera, microphone, notifications, attention, battery; where there are such devices.
  pub run-IsShown :
      (d : Devices) (rs : List Request) (t : LightType) (hw : HwLightState)
      → has_notification_devices d ≡ true
      → is_listed t (battery ∷ notifications ∷ attention ∷ microphone ∷ camera ∷ []) ≡ true
      → (run d ((t, hw) ∷ rs)).1
        ≡ set_notification_state sys b d (shown ((t, hw) ∷ rs)) (run d rs).1
  unfolding run IsAfter
  run-IsShown d rs t hw h i = cc (
    set_light_state-updates t hw (run d rs).0 (run d rs).1 i is_there,
    before.0,
    notification_color-IsShown d ((t, hw) ∷ rs) _ (run-IsAfter d ((t, hw) ∷ rs) h),
  )
    where
      before : IsAfter d rs (run d rs).0
      before = run-IsAfter d rs h

      is_there : has_notification_devices (run d rs).0.devices ≡ true
      is_there = cc (before.0, h)

  set_light_state-keeps :
      (t : LightType) (hw : HwLightState) (s : Lights) (l : Log)
      → let after = (set_light_state sys b t hw s l).0 in
        (after.devices ≡ s.devices) × (after.lights ≡ s.lights)
  unfolding set_light_state
  set_light_state-keeps backlight hw s l = ground arith
  set_light_state-keeps keyboard hw s l = ground arith
  set_light_state-keeps buttons hw s l = ground arith
  set_light_state-keeps battery hw s l = ground arith
  set_light_state-keeps notifications hw s l = ground arith
  set_light_state-keeps attention hw s l = ground arith
  set_light_state-keeps microphone hw s l = ground arith
  set_light_state-keeps camera hw s l = ground arith
  set_light_state-keeps (other_light id) hw s l = ground arith

  answers :
      (t : LightType) (hw : HwLightState) (s : Lights) (l : Log)
      → is_answered (set_light_state sys b t hw s l).2
        ≡ (is_listed t (lights_of s.devices) || is_unguarded t)
  unfolding set_light_state is_listed is_unguarded lights_of if_has is_answered
  answers backlight hw s l = ground arith
  answers keyboard hw s l = ground arith
  answers buttons hw s l = ground arith
  answers battery hw s l = ground arith
  answers notifications hw s l = ground arith
  answers attention hw s l = ground arith
  answers microphone hw s l = ground arith
  answers camera hw s l = ground arith
  answers (other_light id) hw s l = ground arith

  run-keeps :
      (d : Devices) (rs : List Request)
      → ((run d rs).0.devices ≡ d) × (get_lights (run d rs).0 ≡ lights_of d)
  unfolding run new get_lights
  run-keeps d [] = (refl, refl)
  run-keeps d ((t, hw) ∷ rs) =
      ground (arith, run-keeps d rs, set_light_state-keeps t hw (run d rs).0 (run d rs).1)

  -- After any history, a request is carried out if getLights names its light, or if it is for the
  -- microphone or the camera; every other is refused.
  pub run-answers :
      (d : Devices) (rs : List Request) (t : LightType) (hw : HwLightState)
      → is_answered (set_light_state sys b t hw (run d rs).0 (run d rs).1).2
        ≡ (is_listed t (get_lights (run d rs).0) || is_unguarded t)
  run-answers d rs t hw =
      cc (answers t hw (run d rs).0 (run d rs).1, (run-keeps d rs).0, (run-keeps d rs).1)
