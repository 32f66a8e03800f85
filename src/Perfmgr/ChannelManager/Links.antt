-- ===== src/Perfmgr/ChannelManager/Links.antt =====
-- What ties the channel map to the slots of the groups.
use hardware_voltage_interfa.Base.{
  ℕ, suc, ◌≤◌, ◌<◌, ◌≡◌, ◌≢◌, ◌⊎◌, inl, inr, refl, ap, ◌∙◌, ◌==◌, none, some, [], ◌∷◌, arith,
  Option-cases, Bool-cases, ◌&&◌,
}
use hardware_voltage_interfa.Base.Dict.{Dict, find, assign, erase, Distinct}
use hardware_voltage_interfa.Perfmgr.ChannelGroup.{
  ChannelGroup, SessionChannel, ChannelMapValue, get_channel,
}
use hardware_voltage_interfa.Perfmgr.ChannelGroup.Slots.{IsSound, IsAt-get, occupied}
use hardware_voltage_interfa.Perfmgr.ChannelManager.{ChannelManager, map_key, channel_at}

-- The keys rise, from `lo` on.
abbrev pub Ordered : ℕ → Dict ChannelGroup → Type 0
Ordered lo [] = Unit
Ordered lo ((k, g) ∷ groups) = (lo ≤ k) × Ordered (suc k) groups

abbrev pub key_of : SessionChannel → ℕ
key_of c = map_key c.tgid c.uid

-- A group stands under its id, and is sound.
pub record IsFiled (groups : Dict ChannelGroup) : Type 0 where
  pub ordered : Ordered 0 groups
  pub sound : (k : ℕ) (g : ChannelGroup) → find k groups ≡ some g → IsSound g
  pub filed : (k : ℕ) (g : ChannelGroup) → find k groups ≡ some g → g.group_id ≡ k

pub record IsLinked (m : ChannelManager) : Type 0 where
  pub groups : IsFiled m.channel_groups
  pub inhabited :
      (k : ℕ) (g : ChannelGroup) → find k m.channel_groups ≡ some g → 0 < occupied g.channels
  pub distinct : Distinct m.channel_map
  pub forward :
      (k : ℕ) (v : ChannelMapValue)
      → find k m.channel_map ≡ some v
      → (c : SessionChannel) × (channel_at m.channel_groups v ≡ some c) × (key_of c ≡ k)
  pub backward :
      (v : ChannelMapValue) (c : SessionChannel)
      → channel_at m.channel_groups v ≡ some c
      → find (key_of c) m.channel_map ≡ some v

pub find_below :
    (k lo : ℕ) (groups : Dict ChannelGroup) → k < lo → Ordered lo groups → find k groups ≡ none
unfolding find
find_below k lo [] h o = refl
find_below k lo ((j, g) ∷ groups) h o = ground (arith, find_below k (suc j) groups)

pub assign-Ordered :
    (lo k : ℕ) (g h : ChannelGroup) (groups : Dict ChannelGroup)
    → find k groups ≡ some g
    → Ordered lo groups
    → Ordered lo (assign k h groups)
unfolding find assign
assign-Ordered lo k g h [] e o = ground arith
assign-Ordered lo k g h ((j, f) ∷ groups) e o = ground (arith, assign-Ordered (suc j) k g h groups)

pub Ordered-mono :
    (lo hi : ℕ) (groups : Dict ChannelGroup) → lo ≤ hi → Ordered hi groups → Ordered lo groups
Ordered-mono lo hi [] h o = o
Ordered-mono lo hi ((j, f) ∷ groups) h o = (omega arith, o.1)

pub erase-Ordered :
    (lo k : ℕ) (groups : Dict ChannelGroup) → Ordered lo groups → Ordered lo (erase k groups)
unfolding erase
erase-Ordered lo k [] o = o
erase-Ordered lo k ((j, f) ∷ groups) o =
    ground (arith, erase-Ordered (suc j) k groups, Ordered-mono lo (suc j) groups)

pub find-erase-Ordered :
    (k lo : ℕ) (groups : Dict ChannelGroup) → Ordered lo groups → find k (erase k groups) ≡ none
unfolding find erase
find-erase-Ordered k lo [] o = refl
find-erase-Ordered k lo ((j, f) ∷ groups) o =
    ground (arith, find_below k (suc j) groups, find-erase-Ordered k (suc j) groups)

-- A place is that of its group and its slot.
pub place_eq : (v w : ChannelMapValue) → v.group_id ≡ w.group_id → v.offset ≡ w.offset → v ≡ w
place_eq v w e f = λ i. record { group_id = e i; offset = f i }

pub same_place : (v w : ChannelMapValue) → (v ≡ w) ⊎ (v ≢ w)
same_place v w = elim (Bool-cases (v.group_id == w.group_id && v.offset == w.offset)) [
  | inl same ↦ inl (place_eq v w (ground arith) (ground arith))
  | inr apart ↦ inr (λ e.
      let i = ap (λ (u : ChannelMapValue). u.group_id) e in
      let j = ap (λ (u : ChannelMapValue). u.offset) e in ground arith)
]

pub channel_at-some :
    (groups : Dict ChannelGroup) (v : ChannelMapValue) (g : ChannelGroup)
    → find v.group_id groups ≡ some g
    → channel_at groups v ≡ get_channel v.offset g
unfolding channel_at
channel_at-some groups v g e = ground arith

pub channel_at-none :
    (groups : Dict ChannelGroup) (v : ChannelMapValue)
    → find v.group_id groups ≡ none
    → channel_at groups v ≡ none
unfolding channel_at
channel_at-none groups v e = ground arith

pub group_of_channel :
    (groups : Dict ChannelGroup) (v : ChannelMapValue) (c : SessionChannel)
    → channel_at groups v ≡ some c
    → (g : ChannelGroup) × (find v.group_id groups ≡ some g) × (get_channel v.offset g ≡ some c)
group_of_channel groups v c e = elim (Option-cases (find v.group_id groups)) [
  | inl n ↦ let a = channel_at-none groups v n in absurd (ground arith)
  | inr (g, f) ↦ let a = channel_at-some groups v g f in (g, f, ground arith)
]

-- A channel knows its place.
pub id-channel_at :
    (groups : Dict ChannelGroup) (v : ChannelMapValue) (c : SessionChannel)
    → IsFiled groups
    → channel_at groups v ≡ some c
    → c.id ≡ v
id-channel_at groups v c f e =
    let (g, found, slot) = group_of_channel groups v c e in
    let at = IsAt-get g.group_id 0 g.channels v.offset c (f.sound v.group_id g found).placed slot in
    place_eq c.id v (at.group ∙ f.filed v.group_id g found) (at.slot ∙ omega arith)

-- A place whose group is found alike holds alike.
pub channel_at-same :
    (groups others : Dict ChannelGroup) (v : ChannelMapValue)
    → find v.group_id groups ≡ find v.group_id others
    → channel_at groups v ≡ channel_at others v
unfolding channel_at
channel_at-same groups others v e = ground arith

-- Two keys never share a place.
pub forward_injective :
    (m : ChannelManager) (j k : ℕ) (v : ChannelMapValue)
    → IsLinked m
    → find j m.channel_map ≡ some v
    → find k m.channel_map ≡ some v
    → j ≡ k
forward_injective m j k v l e f =
    let (c, at, key) = l.forward j v e in let (d, at', key') = l.forward k v f in ground arith
