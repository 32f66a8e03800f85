-- ===== src/Light/Switches.antt =====
-- light/devices/LedDevice.cpp: what setBrightness leaves in the files of an LED.
use Prim.Native.String.{String}
use hardware_voltage_interfa.Base.{
  ℕ, zero, suc, ◌≡◌, ◌≢◌, refl, ◌∙◌, ◌⊎◌, inl, inr, true, false, ◌&&◌, Option, some, none, [], ◌∷◌,
  ◌==◌, ltb, leb, if◌then◌else◌, arith,
}
use hardware_voltage_interfa.Base.Int.{pos}
use hardware_voltage_interfa.Light.Sysfs.{
  Node, node_index, directory, brightness, blink, trigger, delay_on, delay_off, led_node, Content,
  number, word, sleep, Log, Sysfs, last_at, is_node, same_text, write_to_file,
}
use hardware_voltage_interfa.Light.LedDevice.{
  LightMode, static, breathing, timed_upstream, timed_qcom, mode_index, LedDevice, supports_mode,
  writes_of, write_delays, retry_delays, start_timer, enable, set_brightness,
}
use hardware_voltage_interfa.Light.Disabling.{
  IsSwitch, for_breath, for_blink, for_trigger, switch_of, off_of, IsBreathNode, is_breath,
  is_blink, Avoids, switch_of-IsSwitch, last_at-write_while_ok, disable_others-turns_off,
  brightness_apart,
}

apart :
    (name other : String) (x y : Node)
    → node_index y ≢ node_index x
    → is_node name x (led_node other y) ≡ false
apart name other x y h = ground arith

switch_index :
    {x : Node} {off : Content}
    → IsSwitch x off
    → (node_index x ≡ 2) ⊎ (node_index x ≡ 3) ⊎ (node_index x ≡ 9)
switch_index for_breath = inl refl
switch_index for_blink = inr (inl refl)
switch_index for_trigger = inr (inr refl)

breath_apart :
    {x y : Node} {off : Content}
    → IsBreathNode (some y)
    → IsSwitch x off
    → some y ≢ some x
    → node_index y ≢ node_index x
breath_apart is_breath for_breath h = absurd (h refl)
breath_apart is_breath for_blink h = omega arith
breath_apart is_breath for_trigger h = omega arith
breath_apart is_blink for_breath h = omega arith
breath_apart is_blink for_blink h = absurd (h refl)
breath_apart is_blink for_trigger h = omega arith

-- What a mode writes spares the nodes that make an LED blink in the others.
module _ (d : LedDevice) (x : Node) (off : Content) (value on off_ms : ℕ) (i : IsSwitch x off) where
  spared :
      (k : ℕ)
      → (node_index x ≡ 2) ⊎ (node_index x ≡ 3) ⊎ (node_index x ≡ 9)
      → leb 4 k ≡ true
      → (k == 9) ≡ false
      → (same_text d.name d.name && k == node_index x) ≡ false
  spared k j a b = ground arith

  breath_writes-Avoids :
      (n : Option Node)
      → n ≢ some x
      → IsBreathNode n
      → Avoids d.name x (elim n [
        | some n ↦ (led_node d.name n, number (if ltb 0 value then pos 1 else pos 0)) ∷ []
        | none ↦ (led_node d.name directory, number (if ltb 0 value then pos 1 else pos 0)) ∷ []
      ])
  unfolding Avoids
  breath_writes-Avoids none h b = (spared 12 (switch_index i) refl refl, tt)
  breath_writes-Avoids (some n) h b = (apart d.name d.name x n (breath_apart b i h), tt)

  writes_of-Avoids :
      (mode : LightMode)
      → IsBreathNode d.breath_node
      → switch_of d mode ≢ some x
      → Avoids d.name x (writes_of d value mode on off_ms)
  unfolding Avoids writes_of switch_of
  writes_of-Avoids static b h = (apart d.name d.name x brightness (brightness_apart i), tt)
  writes_of-Avoids breathing b h = (
    apart d.name d.name x brightness (brightness_apart i),
    breath_writes-Avoids d.breath_node h b,
  )
  writes_of-Avoids timed_upstream b h = tt
  writes_of-Avoids timed_qcom b h = (
    spared 4 at refl refl,
    (
      spared 5 at refl refl,
      (
        spared 6 at refl refl,
        (
          spared 7 at refl refl,
          (spared 8 at refl refl, (apart d.name d.name x blink (breath_apart is_blink i h), tt)),
        ),
      ),
    ),
  )
    where
      at : (node_index x ≡ 2) ⊎ (node_index x ≡ 3) ⊎ (node_index x ≡ 9)
      at = switch_index i

  delays-Avoids : Avoids d.name x (
      (led_node d.name delay_off, number (pos off_ms))
      ∷ (led_node d.name delay_on, number (pos on))
      ∷ [])
  unfolding Avoids
  delays-Avoids = (spared 10 (switch_index i) refl refl, (spared 11 (switch_index i) refl refl, tt))

  last_at-retry_delays :
      (sys : Sysfs) (retries : ℕ) (l : Log)
      → last_at d.name x (retry_delays sys d on off_ms retries l).0 ≡ last_at d.name x l
  unfolding retry_delays write_delays last_at
  last_at-retry_delays sys zero l = refl
  last_at-retry_delays sys (suc retries) l = ground (
    arith,
    last_at-retry_delays sys retries (write_delays sys d on off_ms l).0,
    last_at-write_while_ok sys d.name x _ (sleep 2 ∷ l) delays-Avoids,
  )

  trigger_apart : some trigger ≢ some x → node_index trigger ≢ node_index x
  trigger_apart h = not_trigger i h
    where
      not_trigger :
          {x : Node} {off : Content}
          → IsSwitch x off
          → some trigger ≢ some x
          → node_index trigger ≢ node_index x
      not_trigger for_breath h = omega arith
      not_trigger for_blink h = omega arith
      not_trigger for_trigger h = absurd (h refl)

  last_at-write_trigger :
      (sys : Sysfs) (c : Content) (l : Log)
      → some trigger ≢ some x
      → last_at d.name x (write_to_file sys (led_node d.name trigger) c l).0 ≡ last_at d.name x l
  unfolding write_to_file last_at
  last_at-write_trigger sys c l h = ground (arith, apart d.name d.name x trigger (trigger_apart h))

  last_at-start_timer :
      (sys : Sysfs) (l : Log)
      → some trigger ≢ some x
      → last_at d.name x (start_timer sys d value on off_ms l).0 ≡ last_at d.name x l
  unfolding start_timer
  last_at-start_timer sys l h = ground (
    arith,
    last_at-write_trigger sys (word "timer") l h,
    last_at-write_trigger sys (word "none") l h,
    last_at-retry_delays sys 20 (write_to_file sys (led_node d.name trigger) (word "timer") l).0,
  )

  last_at-enable :
      (sys : Sysfs) (mode : LightMode) (l : Log)
      → IsBreathNode d.breath_node
      → switch_of d mode ≢ some x
      → last_at d.name x (enable sys d value mode on off_ms l).0 ≡ last_at d.name x l
  unfolding enable switch_of
  last_at-enable sys static l b h =
      last_at-write_while_ok sys d.name x _ l (writes_of-Avoids static b h)
  last_at-enable sys breathing l b h =
      last_at-write_while_ok sys d.name x _ l (writes_of-Avoids breathing b h)
  last_at-enable sys timed_upstream l b h = last_at-start_timer sys l h
  last_at-enable sys timed_qcom l b h =
      last_at-write_while_ok sys d.name x _ l (writes_of-Avoids timed_qcom b h)

-- After setBrightness, an LED blinks in no other mode than the one asked for: of every other mode
-- that the device supports, the node that makes it blink holds what turns it off. The node can be
-- written, and the mode asked for does not use it too.
pub set_brightness-IsExclusive :
    (sys : Sysfs) (d : LedDevice) (value on off : ℕ) (mode m : LightMode) (x : Node) (l : Log)
    → IsBreathNode d.breath_node
    → ((l : Log) → sys.can_write l (led_node d.name x) ≡ true)
    → supports_mode d m ≡ true
    → mode_index mode ≢ mode_index m
    → switch_of d m ≡ some x
    → switch_of d mode ≢ some x
    → last_at d.name x (set_brightness sys d value mode on off l).0 ≡ some (off_of m)
unfolding set_brightness
set_brightness-IsExclusive sys d value on off mode m x l b w h ne s s' =
    last_at-enable d x (off_of m) value on off (switch_of-IsSwitch d m x b s) sys mode _ b s'
    ∙ disable_others-turns_off sys d x mode m l b ne h w s
