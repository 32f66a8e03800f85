-- ===== src/Light/Disabling.antt =====
-- light/devices/LedDevice.cpp: turning off the modes that are not asked for.
use Prim.Native.String.{String}
use mathlib.Core.Path.{subst}
use mathlib.Core.Option.{some_inj}
use text.Mathlib.TextPositions.{eq_refl}
use hardware_voltage_interfa.Base.{
  ◌≡◌, ◌≢◌, refl, sym, ◌⊎◌, inl, inr, true, false, Option, some, none, List, [], ◌∷◌, arith,
}
use hardware_voltage_interfa.Base.Int.{pos}
use hardware_voltage_interfa.Light.Sysfs.{
  Node, node_index, brightness, breath, blink, trigger, FilePath, led_node, Content, number, word,
  write, Log, Sysfs, last_at, is_node, write_to_file, write_while_ok,
}
use hardware_voltage_interfa.Light.LedDevice.{
  LightMode, static, breathing, timed_upstream, timed_qcom, mode_index, LedDevice, supports_mode,
  write_node, write_breath, disable, disable_unless, disable_others,
}

-- No write of the list goes to the node.
unfoldable pub Avoids : String → Node → List (FilePath × Content) → Type 0
Avoids name x [] = Unit
Avoids name x ((p, c) ∷ ws) = (is_node name x p ≡ false) × Avoids name x ws

module _ (sys : Sysfs) where
  open sys use {can_write}

  pub last_at-write_while_ok :
      (name : String) (x : Node) (ws : List (FilePath × Content)) (l : Log)
      → Avoids name x ws
      → last_at name x (write_while_ok sys ws l).0 ≡ last_at name x l
  unfolding write_while_ok last_at Avoids
  last_at-write_while_ok name x [] l a = refl
  last_at-write_while_ok name x ((p, c) ∷ ws) l a =
      ground (arith, last_at-write_while_ok name x ws (write p c ∷ l) a.1)

  last_at-write_node :
      (d : LedDevice) (x : Node) (c : Content) (l : Log)
      → can_write l (led_node d.name x) ≡ true
      → last_at d.name x (write_node sys d x c l) ≡ some c
  unfolding write_node write_to_file last_at
  last_at-write_node d x c l h = ground (arith, eq_refl d.name)

  write_node-keeps :
      (d : LedDevice) (x y : Node) (c off : Content) (l : Log)
      → (node_index y ≢ node_index x) ⊎ (c ≡ off)
      → last_at d.name x l ≡ some off
      → last_at d.name x (write_node sys d y c l) ≡ some off
  unfolding write_node write_to_file last_at
  write_node-keeps d x y c off l h e = ground (arith, eq_refl d.name)

-- The node that makes an LED blink in a mode, and what turns it off.
unfoldable pub switch_of : LedDevice → LightMode → Option Node
switch_of d static = none
switch_of d breathing = d.breath_node
switch_of d timed_upstream = some trigger
switch_of d timed_qcom = some blink

unfoldable pub off_of : LightMode → Content
off_of static = number (pos 0)
off_of breathing = number (pos 0)
off_of timed_upstream = word "none"
off_of timed_qcom = number (pos 0)

-- The node for breathing is one of those that the constructor looks for.
pub data IsBreathNode : Option Node → Type 0 where
  is_absent : IsBreathNode none
  is_breath : IsBreathNode (some breath)
  is_blink : IsBreathNode (some blink)

pub data IsSwitch : Node → Content → Type 0 where
  for_breath : IsSwitch breath (number (pos 0))
  for_blink : IsSwitch blink (number (pos 0))
  for_trigger : IsSwitch trigger (word "none")

pub switch_of-IsSwitch :
    (d : LedDevice) (m : LightMode) (x : Node)
    → IsBreathNode d.breath_node
    → switch_of d m ≡ some x
    → IsSwitch x (off_of m)
unfolding switch_of off_of
switch_of-IsSwitch d static x b s = ground arith
switch_of-IsSwitch d breathing x b s = is_breath_switch b s
  where
    is_breath_switch : {n : Option Node} → IsBreathNode n → n ≡ some x → IsSwitch x (number (pos 0))
    is_breath_switch is_absent e = ground arith
    is_breath_switch is_breath e =
        subst (λ y. IsSwitch y (number (pos 0))) (some_inj.0 e) for_breath
    is_breath_switch is_blink e = subst (λ y. IsSwitch y (number (pos 0))) (some_inj.0 e) for_blink
switch_of-IsSwitch d timed_upstream x b s =
    subst (λ y. IsSwitch y (word "none")) (some_inj.0 s) for_trigger
switch_of-IsSwitch d timed_qcom x b s =
    subst (λ y. IsSwitch y (number (pos 0))) (some_inj.0 s) for_blink

pub brightness_apart :
    {x : Node} {off : Content} → IsSwitch x off → node_index brightness ≢ node_index x
brightness_apart for_breath = omega arith
brightness_apart for_blink = omega arith
brightness_apart for_trigger = omega arith

zero_apart :
    {x : Node} {off : Content} {y : Node}
    → IsBreathNode (some y)
    → IsSwitch x off
    → (node_index y ≢ node_index x) ⊎ (number (pos 0) ≡ off)
zero_apart b for_breath = inr refl
zero_apart b for_blink = inr refl
zero_apart is_breath for_trigger = inl (omega arith)
zero_apart is_blink for_trigger = inl (omega arith)

none_apart :
    {x : Node} {off : Content}
    → IsSwitch x off
    → (node_index trigger ≢ node_index x) ⊎ (word "none" ≡ off)
none_apart for_breath = inl (omega arith)
none_apart for_blink = inl (omega arith)
none_apart for_trigger = inr refl

module _ (sys : Sysfs) (d : LedDevice) (x : Node) (off : Content) where
  open sys use {can_write}

  apart_or_off :
      (y : Node) (c : Content)
      → (node_index y ≢ node_index x) ⊎ (c ≡ off)
      → (l : Log) → last_at d.name x l ≡ some off
      → last_at d.name x (write_node sys d y c l) ≡ some off
  apart_or_off y c h l e = write_node-keeps sys d x y c off l h e

  write_breath-keeps :
      (n : Option Node) (l : Log)
      → IsBreathNode n
      → IsSwitch x off
      → last_at d.name x l ≡ some off
      → last_at d.name x (write_breath sys d n l) ≡ some off
  unfolding write_breath
  write_breath-keeps none l b s e = e
  write_breath-keeps (some n) l b s e = apart_or_off n _ (zero_apart b s) l e

  disable-keeps :
      (j : LightMode) (l : Log)
      → IsBreathNode d.breath_node
      → IsSwitch x off
      → last_at d.name x l ≡ some off
      → last_at d.name x (disable sys d j l) ≡ some off
  unfolding disable
  disable-keeps static l b s e = apart_or_off brightness _ (inl (brightness_apart s)) l e
  disable-keeps breathing l b s e =
      write_breath-keeps d.breath_node _ b s
        (apart_or_off brightness _ (inl (brightness_apart s)) l e)
  disable-keeps timed_upstream l b s e = apart_or_off trigger _ (none_apart s) l e
  disable-keeps timed_qcom l b s e = apart_or_off blink _ (zero_apart is_blink s) l e

  disable_unless-keeps :
      (mode j : LightMode) (l : Log)
      → IsBreathNode d.breath_node
      → IsSwitch x off
      → last_at d.name x l ≡ some off
      → last_at d.name x (disable_unless sys d mode j l) ≡ some off
  unfolding disable_unless
  disable_unless-keeps mode j l b s e = ground (arith, disable-keeps j l b s e)

module _ (sys : Sysfs) (d : LedDevice) (x : Node) where
  open sys use {can_write}

  is_written :
      (y : Node) (c : Content) (l : Log)
      → y ≡ x
      → ((l : Log) → can_write l (led_node d.name x) ≡ true)
      → last_at d.name x (write_node sys d y c l) ≡ some c
  is_written y c l e w =
      subst (λ y. last_at d.name x (write_node sys d y c l) ≡ some c) (sym e)
        (last_at-write_node sys d x c l (w l))

  disable-turns_off :
      (m : LightMode) (l : Log)
      → ((l : Log) → can_write l (led_node d.name x) ≡ true)
      → switch_of d m ≡ some x
      → last_at d.name x (disable sys d m l) ≡ some (off_of m)
  unfolding disable switch_of off_of write_breath
  disable-turns_off static l w s = ground arith
  disable-turns_off breathing l w s =
      subst (λ n. last_at d.name x (write_breath sys d n l') ≡ some (number (pos 0))) (sym s)
        (last_at-write_node sys d x _ l' (w l'))
    where
      l' : Log
      l' = write_node sys d brightness (number (pos 0)) l
  disable-turns_off timed_upstream l w s = is_written trigger _ l (some_inj.0 s) w
  disable-turns_off timed_qcom l w s = is_written blink _ l (some_inj.0 s) w

  disable_unless-turns_off :
      (mode m : LightMode) (l : Log)
      → mode_index mode ≢ mode_index m
      → supports_mode d m ≡ true
      → ((l : Log) → can_write l (led_node d.name x) ≡ true)
      → switch_of d m ≡ some x
      → last_at d.name x (disable_unless sys d mode m l) ≡ some (off_of m)
  unfolding disable_unless
  disable_unless-turns_off mode m l ne h w s = ground (arith, disable-turns_off m l w s)

  pub disable_others-turns_off :
      (mode m : LightMode) (l : Log)
      → IsBreathNode d.breath_node
      → mode_index mode ≢ mode_index m
      → supports_mode d m ≡ true
      → ((l : Log) → can_write l (led_node d.name x) ≡ true)
      → switch_of d m ≡ some x
      → last_at d.name x (disable_others sys d mode l) ≡ some (off_of m)
  unfolding disable_others
  disable_others-turns_off mode m l b ne h w s = others m ne h s (switch_of-IsSwitch d m x b s)
    where
      keeps :
          (off : Content) (j : LightMode) (l : Log)
          → IsSwitch x off
          → last_at d.name x l ≡ some off
          → last_at d.name x (disable_unless sys d mode j l) ≡ some off
      keeps off j l i e = disable_unless-keeps sys d x off mode j l b i e

      others :
          (m : LightMode)
          → mode_index mode ≢ mode_index m
          → supports_mode d m ≡ true
          → switch_of d m ≡ some x
          → IsSwitch x (off_of m)
          → last_at d.name x (disable_others sys d mode l) ≡ some (off_of m)
      others static ne h s i = disable_unless-turns_off mode static _ ne h w s
      others breathing ne h s i =
          keeps _ static _ i (disable_unless-turns_off mode breathing _ ne h w s)
      others timed_upstream ne h s i =
          keeps _ static _ i
            (keeps _ breathing _ i (disable_unless-turns_off mode timed_upstream _ ne h w s))
      others timed_qcom ne h s i = keeps _ static _ i (
          keeps _ breathing _ i
            (keeps _ timed_upstream _ i (disable_unless-turns_off mode timed_qcom _ ne h w s)))
