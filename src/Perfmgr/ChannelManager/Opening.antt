-- ===== src/Perfmgr/ChannelManager/Opening.antt =====
-- Finding or creating the channel of a client.
use mathlib.Core.Path.{subst}
use hardware_voltage_interfa.Base.{
  ℕ, ◌<◌, ◌≡◌, ◌≢◌, ◌⊎◌, inl, inr, refl, sym, ap, ◌∙◌, ◌==◌, none, some, arith, Option-cases,
  Bool-cases, ==_iff,
}
use hardware_voltage_interfa.Base.Dict.{Dict, find, assign, find-assign, assign-Distinct}
use hardware_voltage_interfa.Perfmgr.ChannelGroup.{
  ChannelGroup, SessionChannel, ChannelMapValue, create_channel,
}
use hardware_voltage_interfa.Perfmgr.ChannelGroup.Slots.{
  IsSound, occupied, IsCreated, create_channel-IsCreated,
}
use hardware_voltage_interfa.Perfmgr.ChannelManager.{
  ChannelManager, map_key, channel_at, create_in, with_room, pick_group, get_or_create_channel,
}
use hardware_voltage_interfa.Perfmgr.ChannelManager.Links.{
  IsFiled, IsLinked, key_of, assign-Ordered, channel_at-some, channel_at-same, place_eq, same_place,
  id-channel_at, id-channel_at,
}
use hardware_voltage_interfa.Perfmgr.ChannelManager.Rooms.{HasRoom, with_room-HasRoom}

-- The manager `n` is `m`, where the client has the channel `c`.
pub record IsOpened (tgid uid : ℕ) (m : ChannelManager) (r : ChannelManager × SessionChannel)
    : Type 0 where
  pub linked : IsLinked r.0
  pub mapped : find (map_key tgid uid) r.0.channel_map ≡ some r.1.id
  pub there : channel_at r.0.channel_groups r.1.id ≡ some r.1
  pub owner : key_of r.1 ≡ map_key tgid uid
  pub other_keys : (j : ℕ) → map_key tgid uid ≢ j → find j r.0.channel_map ≡ find j m.channel_map
  pub other_places :
      (w : ChannelMapValue)
      → w ≢ r.1.id
      → channel_at r.0.channel_groups w ≡ channel_at m.channel_groups w

find_self :
    (k : ℕ) (v : ChannelMapValue) (m : Dict ChannelMapValue) → find k (assign k v m) ≡ some v
find_self k v m = ground (arith, find-assign k k v m)

find_other :
    (k j : ℕ) (v : ChannelMapValue) (m : Dict ChannelMapValue)
    → k ≢ j
    → find j (assign k v m) ≡ find j m
find_other k j v m apart = ground (arith, find-assign k j v m)

some_inj : {A : Type 0} (a b : A) → some a ≡ some b → a ≡ b
some_inj a b h = cc

none-some : {A : Type 0} (a : A) → ¬ (none ≡ some a)
none-some a h = cc

module _ (tgid uid : ℕ) (m : ChannelManager) (l : IsLinked m)
    (absent : find (map_key tgid uid) m.channel_map ≡ none) (groups : Dict ChannelGroup) (id : ℕ)
    (room : HasRoom m.channel_groups (groups, id)) (g h : ChannelGroup) (c : SessionChannel)
    (found : find id groups ≡ some g) (made : IsCreated tgid uid g (h, c)) where
  key : ℕ
  key = map_key tgid uid

  opened : ChannelManager
  opened = record {
    channel_groups = assign id h groups;
    channel_map = assign (map_key tgid uid) c.id m.channel_map;
  }

  in_group : c.id.group_id ≡ id
  in_group = made.in_group ∙ room.filed.filed id g found

  now : find c.id.group_id (assign id h groups) ≡ some h
  now =
      let e = in_group in
      ap (λ i. find i (assign id h groups)) in_group ∙ ground (arith, find-assign id id h groups)

  was : (w : ChannelMapValue) → w.group_id ≡ c.id.group_id → find w.group_id groups ≡ some g
  was w e = ap (λ i. find i groups) (e ∙ in_group) ∙ found

  there : channel_at (assign id h groups) c.id ≡ some c
  there = channel_at-some _ c.id h now ∙ made.in_slot

  was_free : channel_at m.channel_groups c.id ≡ none
  was_free = sym (room.same c.id) ∙ channel_at-some groups c.id g (was c.id refl) ∙ made.was_free

  other_places :
      (w : ChannelMapValue)
      → w ≢ c.id
      → channel_at (assign id h groups) w ≡ channel_at m.channel_groups w
  other_places w apart = elim (Bool-cases (id == w.group_id)) [
    | inl same ↦
        let eq : w.group_id ≡ c.id.group_id = sym ((==_iff id w.group_id).0 same) ∙ sym in_group in
        channel_at-some _ w h (ap (λ i. find i (assign id h groups)) eq ∙ now)
        ∙ made.others w.offset (λ slot. apart (place_eq w c.id eq slot))
        ∙ sym (channel_at-some groups w g (was w eq))
        ∙ room.same w
    | inr ne ↦
        channel_at-same _ groups w (ground (arith, find-assign id w.group_id h groups))
        ∙ room.same w
  ]

  either :
      (j : ℕ) (f : ChannelGroup)
      → find j (assign id h groups) ≡ some f
      → ((id ≡ j) × (h ≡ f)) ⊎ ((id ≢ j) × (find j groups ≡ some f))
  either j f e = ground (arith, find-assign id j h groups)

  opened-IsFiled : IsFiled (assign id h groups)
  opened-IsFiled = record {
    ordered = assign-Ordered 0 id g h groups found room.filed.ordered;
    sound = λ j f e. elim (either j f e) [
      | inl (here, is_h) ↦ subst IsSound is_h made.sound
      | inr (ne, old) ↦ room.filed.sound j f old
    ];
    filed = λ j f e. elim (either j f e) [
      | inl (here, is_h) ↦
          ap (λ (x : ChannelGroup). x.group_id) (sym is_h)
          ∙ made.same_group
          ∙ room.filed.filed id g found
          ∙ here
      | inr (ne, old) ↦ room.filed.filed j f old
    ];
  }

  opened_inhabited :
      (j : ℕ) (f : ChannelGroup) → find j (assign id h groups) ≡ some f → 0 < occupied f.channels
  opened_inhabited j f e = elim (either j f e) [
    | inl (here, is_h) ↦
        subst (λ (x : ChannelGroup). 0 < occupied x.channels) is_h (omega (arith, made.more))
    | inr (ne, old) ↦ elim (room.old j f old) [
      | inl there_before ↦ l.inhabited j f there_before
      | inr here ↦ absurd (ne here)
    ]
  ]

  owner : key_of c ≡ map_key tgid uid
  owner = ap (λ t. map_key t c.uid) made.owner.0 ∙ ap (λ u. map_key tgid u) made.owner.1

  opened_forward :
      (j : ℕ) (w : ChannelMapValue)
      → find j (assign (map_key tgid uid) c.id m.channel_map) ≡ some w
      → (d : SessionChannel) × (channel_at (assign id h groups) w ≡ some d) × (key_of d ≡ j)
  opened_forward j w e = elim (Bool-cases (map_key tgid uid == j)) [
    | inl same ↦
        let eq = (==_iff (map_key tgid uid) j).0 same in
        let place : c.id ≡ w =
          ground (arith, find-assign (map_key tgid uid) j c.id m.channel_map) in
        (c, ap (channel_at (assign id h groups)) (sym place) ∙ there, owner ∙ eq)
    | inr ne ↦
        let old : find j m.channel_map ≡ some w =
          ground (arith, find-assign (map_key tgid uid) j c.id m.channel_map) in
        let (d, at, k) = l.forward j w old in
        let apart : w ≢ c.id =
          λ same. ground (arith, was_free, ap (channel_at m.channel_groups) same) in
        (d, other_places w apart ∙ at, k)
  ]

  opened_backward :
      (w : ChannelMapValue) (d : SessionChannel)
      → channel_at (assign id h groups) w ≡ some d
      → find (key_of d) (assign (map_key tgid uid) c.id m.channel_map) ≡ some w
  opened_backward w d e = elim (same_place w c.id) [
    | inl here ↦
        let is_c : c ≡ d =
          some_inj c d (sym there ∙ ap (channel_at (assign id h groups)) (sym here) ∙ e) in
        let k : map_key tgid uid ≡ key_of d = sym owner ∙ ap (λ x. key_of x) is_c in
        ap (λ j. find j (assign (map_key tgid uid) c.id m.channel_map)) (sym k)
        ∙ find_self (map_key tgid uid) c.id m.channel_map
        ∙ ap some (sym here)
    | inr elsewhere ↦
        let old = l.backward w d (sym (other_places w elsewhere) ∙ e) in
        let apart : map_key tgid uid ≢ key_of d =
          λ k. none-some w (sym absent ∙ ap (λ j. find j m.channel_map) k ∙ old) in
        find_other (map_key tgid uid) (key_of d) c.id m.channel_map apart ∙ old
  ]

  opened-IsOpened : IsOpened tgid uid m (opened, c)
  unfolding opened
  opened-IsOpened = record {
    linked = record {
      groups = opened-IsFiled;
      inhabited = opened_inhabited;
      distinct = assign-Distinct (map_key tgid uid) c.id m.channel_map l.distinct;
      forward = opened_forward;
      backward = opened_backward;
    };
    mapped = find_self (map_key tgid uid) c.id m.channel_map;
    there = there;
    owner = owner;
    other_keys = λ j apart. find_other (map_key tgid uid) j c.id m.channel_map apart;
    other_places = other_places;
  }

  created_in :
      create_channel tgid uid g ≡ some (h, c) → create_in tgid uid groups id m ≡ some (opened, c)
  unfolding opened create_in
  created_in e = ground arith

get_or_create_channel-found :
    (tgid uid : ℕ) (m : ChannelManager) (v : ChannelMapValue) (c : SessionChannel)
    → find (map_key tgid uid) m.channel_map ≡ some v
    → channel_at m.channel_groups v ≡ some c
    → get_or_create_channel tgid uid m ≡ some (m, c)
unfolding get_or_create_channel
get_or_create_channel-found tgid uid m v c e f = ground arith

get_or_create_channel-new :
    (tgid uid : ℕ) (m : ChannelManager)
    → find (map_key tgid uid) m.channel_map ≡ none
    → let r = with_room (pick_group m.channel_groups) m.channel_groups in
      get_or_create_channel tgid uid m ≡ create_in tgid uid r.0 r.1 m
unfolding get_or_create_channel
get_or_create_channel-new tgid uid m e = ground arith

-- Asking for the channel of a client never ends the process: the answer is a channel of the client in
-- its place, found by the client's key, the one it had if there was one. No other client's channel
-- and no other place changes, and the channel map and the slots of the groups stay tied to each other.
pub get_or_create_channel-IsOpened :
    (tgid uid : ℕ) (m : ChannelManager)
    → IsLinked m
    → (r : ChannelManager × SessionChannel) × (get_or_create_channel tgid uid m ≡ some r)
      × IsOpened tgid uid m r
      × ((r.0 ≡ m) ⊎ (find (map_key tgid uid) m.channel_map ≡ none))
get_or_create_channel-IsOpened tgid uid m l =
    elim (Option-cases (find (map_key tgid uid) m.channel_map)) [
      | inl e ↦
          let (groups, id) = with_room (pick_group m.channel_groups) m.channel_groups in
          let room = with_room-HasRoom m.channel_groups l.groups in
          let (g, found, free) = room.room in
          let ((h, c), made, created) =
            create_channel-IsCreated tgid uid g (room.filed.sound id g found) free in
          (
            (opened tgid uid m l e groups id room g h c found created, c),
            get_or_create_channel-new tgid uid m e
                ∙ created_in tgid uid m l e groups id room g h c found created made,
            opened-IsOpened tgid uid m l e groups id room g h c found created,
            inr e,
          )
      | inr (v, e) ↦
          let (c, at, k) = l.forward (map_key tgid uid) v e in
          let place = id-channel_at m.channel_groups v c l.groups at in
          (
            (m, c),
            get_or_create_channel-found tgid uid m v c e at,
            record {
              linked = l;
              mapped = e ∙ ap some (sym place);
              there = ap (channel_at m.channel_groups) place ∙ at;
              owner = k;
              other_keys = λ j apart. refl;
              other_places = λ w apart. refl;
            },
            inl refl,
          )
    ]
