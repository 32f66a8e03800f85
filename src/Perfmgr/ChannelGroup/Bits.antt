-- ===== src/Perfmgr/ChannelGroup/Bits.antt =====
-- The bits by which the channels of a group wake each other.
use mathlib.Core.Path.{subst}
use native.Mathlib.Nat.{two-pow-succ, one-le-pow, pow-le-pow_right}
use hardware_voltage_interfa.Base.{ℕ, suc, ◌+◌, ◌%◌, ◌^◌, ◌≤◌, ◌<◌, ◌≡◌, ◌∙◌, some, arith}
use hardware_voltage_interfa.Perfmgr.ChannelGroup.{
  SessionChannel, ChannelGroup, max_channels, get_channel,
}
use hardware_voltage_interfa.Perfmgr.ChannelGroup.Slots.{IsAt, IsAt-get, IsSound}

pow_grows : (i j : ℕ) → i < j → (2 ^ i < 2 ^ j) × (1 ≤ 2 ^ i)
pow_grows i j h =
    let double = two-pow-succ i in
    let positive = one-le-pow i 2 (omega arith) in
    let more : 2 ^ suc i ≤ 2 ^ j = pow-le-pow_right (omega arith) h in (omega arith, positive)

pow_small : (i : ℕ) → i < 32 → 2 ^ i % 2 ^ 32 ≡ 2 ^ i
pow_small i h = let small = (pow_grows i 32 h).0 in omega arith

bits :
    (g i : ℕ) (c : SessionChannel)
    → IsAt g i c
    → i < 16
    → (c.write_mask ≡ 2 ^ i) × (c.read_mask ≡ 2 ^ (i + 16))
bits g i c a h =
    (a.write_bit ∙ pow_small i (omega arith), a.read_bit ∙ pow_small (i + 16) (omega arith))

-- In a sound group the bits of two channels are all different, and as the comment of the class says,
-- a bit for writing is among the lowest 16 bits and one for reading among the upper 16.
pub IsSound-masks :
    (g : ChannelGroup) (i j : ℕ) (c d : SessionChannel)
    → IsSound g
    → get_channel i g ≡ some c
    → get_channel j g ≡ some d
    → i < j
    → j < max_channels
    → (0 < c.write_mask)
      × (c.write_mask < d.write_mask)
      × (d.write_mask < 2 ^ 16)
      × (2 ^ 16 ≤ c.read_mask)
      × (c.read_mask < d.read_mask)
      × (d.read_mask < 2 ^ 32)
IsSound-masks g i j c d s ec ed lt top =
    let a : IsAt g.group_id i c =
      subst (λ n. IsAt g.group_id n c) (omega arith)
        (IsAt-get g.group_id 0 g.channels i c s.placed ec) in
    let b : IsAt g.group_id j d =
      subst (λ n. IsAt g.group_id n d) (omega arith)
        (IsAt-get g.group_id 0 g.channels j d s.placed ed) in
    let p = pow_grows i j lt in
    let q = pow_grows j 16 top in
    let r = pow_grows (i + 16) (j + 16) (omega arith) in
    let t = pow_grows (j + 16) 32 (omega arith) in
    let upper : 16 ≤ i + 16 = omega arith in
    let u : 2 ^ 16 ≤ 2 ^ (i + 16) = pow-le-pow_right (omega arith) {i = 16} upper in
    let ca = bits g.group_id i c a (omega arith) in
    let db = bits g.group_id j d b top in ground arith
