-- ===== src/Light/Wait.antt =====
-- light/devices/LedDevice.cpp: waiting for the nodes of the kernel's timer.
use mathlib.Core.Path.{subst}
use text.Mathlib.TextPositions.{eq_refl}
use hardware_voltage_interfa.Base.{
  ℕ, zero, suc, ◌+◌, ◌≤◌, ◌≡◌, sym, Bool, true, some, [], ◌∷◌, ltb, arith,
}
use hardware_voltage_interfa.Base.Int.{pos}
use hardware_voltage_interfa.Light.Sysfs.{
  delay_off, delay_on, trigger, led_node, last_at, number, word, write, sleep, Log, Sysfs,
  write_to_file, write_while_ok,
}
use hardware_voltage_interfa.Light.LedDevice.{LedDevice, write_delays, retry_delays, start_timer}

-- How often the loop has slept.
abbrev pub turns : Log → ℕ
turns [] = 0
turns (sleep ms ∷ l) = suc (turns l)
turns (write p c ∷ l) = turns l

module _ (sys : Sysfs) (d : LedDevice) (on off : ℕ) where
  open sys use {can_write}

  write_delays-turns : (l : Log) → turns (write_delays sys d on off l).0 ≡ suc (turns l)
  unfolding write_delays write_while_ok
  write_delays-turns l = ground arith

  -- A turn that succeeds has written both.
  write_delays_ok :
      (l : Log)
      → (write_delays sys d on off l).1 ≡ true
      → (last_at d.name delay_on (write_delays sys d on off l).0 ≡ some (number (pos on)))
        × (last_at d.name delay_off (write_delays sys d on off l).0 ≡ some (number (pos off)))
  unfolding write_delays write_while_ok last_at
  write_delays_ok l h = ground (arith, eq_refl d.name)

  -- The nodes of the delays can be written from the turn `n` on.
  unfoldable pub Appear : ℕ → Type 0
  Appear n =
      (l : Log)
      → n ≤ turns l
      → (can_write l (led_node d.name delay_off) ≡ true)
        × (can_write l (led_node d.name delay_on) ≡ true)

  write_delays-Appear :
      (n : ℕ) (l : Log) → Appear n → n ≤ suc (turns l) → (write_delays sys d on off l).1 ≡ true
  unfolding write_delays write_while_ok Appear
  write_delays-Appear n l a le = ground (
    arith,
    a (sleep 2 ∷ l) le,
    a (write (led_node d.name delay_off) (number (pos off)) ∷ sleep 2 ∷ l) le,
  )

  unfoldable pub AreSet : Log × Bool → Type 0
  AreSet r =
      (r.1 ≡ true)
      × (last_at d.name delay_on r.0 ≡ some (number (pos on)))
      × (last_at d.name delay_off r.0 ≡ some (number (pos off)))

  retry_delays-AreSet :
      (n k : ℕ) (l : Log)
      → Appear n
      → n ≤ turns l + suc k
      → AreSet (retry_delays sys d on off (suc k) l)
  unfolding retry_delays AreSet
  retry_delays-AreSet n zero l a le = ground (arith, write_delays-Appear n l a, write_delays_ok l)
  retry_delays-AreSet n (suc k) l a le = ground (
    arith,
    write_delays_ok l,
    write_delays-turns l,
    retry_delays-AreSet n k (write_delays sys d on off l).0 a,
  )

  retry_delays-turns : (k : ℕ) (l : Log) → turns (retry_delays sys d on off k l).0 ≤ turns l + k
  unfolding retry_delays
  retry_delays-turns zero l = omega arith
  retry_delays-turns (suc k) l =
      ground (arith, write_delays-turns l, retry_delays-turns k (write_delays sys d on off l).0)

  start_timer_waits :
      (value : ℕ) (l : Log)
      → ltb 0 value ≡ true
      → can_write l (led_node d.name trigger) ≡ true
      → start_timer sys d value on off l
        ≡ retry_delays sys d on off 20 (write (led_node d.name trigger) (word "timer") ∷ l)
  unfolding start_timer write_to_file
  start_timer_waits value l v w = ground arith

  -- Whatever value is asked for and whatever the kernel lets be written, there are no more than twenty
  -- turns of the loop.
  start_timer-turns :
      (value : ℕ) (l : Log) → turns (start_timer sys d value on off l).0 ≤ turns l + 20
  unfolding start_timer write_to_file
  start_timer-turns value l = ground (
    arith,
    retry_delays-turns 20 l,
    retry_delays-turns 20 (write (led_node d.name trigger) (word "timer") ∷ l),
  )

  -- For an LED that is to blink and whose trigger can be written, where the nodes of the delays appear
  -- within twenty turns of the loop: it gets both delays, the loop reports success, and it has
  -- taken no more than twenty turns.
  pub start_timer-AreSet :
      (n value : ℕ) (l : Log)
      → ltb 0 value ≡ true
      → can_write l (led_node d.name trigger) ≡ true
      → Appear n
      → n ≤ turns l + 20
      → AreSet (start_timer sys d value on off l)
        × (turns (start_timer sys d value on off l).0 ≤ turns l + 20)
  start_timer-AreSet n value l v w a le = (
    subst AreSet (sym (start_timer_waits value l v w)) (retry_delays-AreSet n 19 _ a le),
    start_timer-turns value l,
  )
