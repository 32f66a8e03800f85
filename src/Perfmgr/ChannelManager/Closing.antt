-- ===== src/Perfmgr/ChannelManager/Closing.antt =====
-- Closing a channel.
use mathlib.Core.Path.{subst}
use hardware_voltage_interfa.Base.{
  ℕ, ◌<◌, ◌≡◌, ◌≢◌, ◌⊎◌, inl, inr, refl, sym, ap, ◌∙◌, ◌==◌, Bool, true, false, none, some, arith,
  Option-cases, Bool-cases, ==_iff, ◌&&◌,
}
use hardware_voltage_interfa.Base.Int.{pos, leb_ℤ}
use hardware_voltage_interfa.Base.Dict.{
  Dict, find, assign, erase, find-assign, find-erase_ne, find-erase_self, erase-Distinct,
}
use hardware_voltage_interfa.Perfmgr.ChannelGroup.{
  ChannelGroup, SessionChannel, ChannelMapValue, get_channel, remove_channel,
}
use hardware_voltage_interfa.Perfmgr.ChannelGroup.Slots.{
  IsSound, occupied, remove_channel-IsRemoved, get_or_of_empty,
}
use hardware_voltage_interfa.Perfmgr.ChannelManager.{
  ChannelManager, map_key, channel_at, drop_channel, close_in, close_channel,
}
use hardware_voltage_interfa.Perfmgr.ChannelManager.Links.{
  IsFiled, IsLinked, key_of, assign-Ordered, erase-Ordered, find-erase-Ordered, place_eq,
  channel_at-some, channel_at-none, channel_at-same, group_of_channel, forward_injective,
}

-- The manager `n` is `m` without the channel of key `k` at the place `v`.
pub record IsClosed (k : ℕ) (v : ChannelMapValue) (m n : ChannelManager) : Type 0 where
  pub linked : IsLinked n
  pub gone : find k n.channel_map ≡ none
  pub free : channel_at n.channel_groups v ≡ none
  pub other_keys : (j : ℕ) → k ≢ j → find j n.channel_map ≡ find j m.channel_map
  pub other_places :
      (w : ChannelMapValue) → w ≢ v → channel_at n.channel_groups w ≡ channel_at m.channel_groups w

module _ (m : ChannelManager) (k : ℕ) (v : ChannelMapValue) (l : IsLinked m)
    (e : find k m.channel_map ≡ some v) (groups : Dict ChannelGroup) (filed : IsFiled groups)
    (inhabited : (j : ℕ) (g : ChannelGroup) → find j groups ≡ some g → 0 < occupied g.channels)
    (free : channel_at groups v ≡ none)
    (others : (w : ChannelMapValue)
      → w ≢ v
      → channel_at groups w ≡ channel_at m.channel_groups w) where
  closed : ChannelManager
  closed = record { channel_groups = groups; channel_map = erase k m.channel_map }

  kept_forward :
      (j : ℕ) (w : ChannelMapValue)
      → find j (erase k m.channel_map) ≡ some w
      → (c : SessionChannel) × (channel_at groups w ≡ some c) × (key_of c ≡ j)
  kept_forward j w f =
      let apart : k ≢ j =
        λ same. ground (arith, find-erase_self k m.channel_map l.distinct, same) in
      let old : find j m.channel_map ≡ some w =
        ground (arith, find-erase_ne k j m.channel_map apart) in
      let (c, at, key) = l.forward j w old in
      let elsewhere : w ≢ v =
        λ same. apart (forward_injective m k j w l (e ∙ ap some (sym same)) old) in
      (c, others w elsewhere ∙ at, key)

  kept_backward :
      (w : ChannelMapValue) (c : SessionChannel)
      → channel_at groups w ≡ some c
      → find (key_of c) (erase k m.channel_map) ≡ some w
  kept_backward w c f =
      let elsewhere : w ≢ v = λ same. ground (arith, free, ap (channel_at groups) same) in
      let old = l.backward w c (sym (others w elsewhere) ∙ f) in
      let apart : k ≢ key_of c = λ same.
        elsewhere (some_inj w v (sym old ∙ ap (λ i. find i m.channel_map) (sym same) ∙ e)) in
      find-erase_ne k (key_of c) m.channel_map apart ∙ old
    where
      some_inj : (a b : ChannelMapValue) → some a ≡ some b → a ≡ b
      some_inj a b h = cc

  closed-IsClosed : IsClosed k v m closed
  unfolding closed
  closed-IsClosed = record {
    linked = record {
      groups = filed;
      inhabited = inhabited;
      distinct = erase-Distinct k m.channel_map l.distinct;
      forward = kept_forward;
      backward = kept_backward;
    };
    gone = find-erase_self k m.channel_map l.distinct;
    free = free;
    other_keys = λ j apart. find-erase_ne k j m.channel_map apart;
    other_places = others;
  }

-- The group `h` is `g` without the channel in slot `i`.
module _ (m : ChannelManager) (k : ℕ) (v : ChannelMapValue) (l : IsLinked m)
    (e : find k m.channel_map ≡ some v) (g h : ChannelGroup)
    (there : find v.group_id m.channel_groups ≡ some g) (sound : IsSound h)
    (same_id : h.group_id ≡ g.group_id) (freed : get_channel v.offset h ≡ none)
    (rest : (i : ℕ) → i ≢ v.offset → get_channel i h ≡ get_channel i g) where
  -- A place in the same group has another slot.
  other_slot : (w : ChannelMapValue) → w ≢ v → w.group_id ≡ v.group_id → w.offset ≢ v.offset
  other_slot w apart same i = apart (place_eq w v same i)

  was_there :
      (w : ChannelMapValue) → w.group_id ≡ v.group_id → find w.group_id m.channel_groups ≡ some g
  was_there w same = ap (λ i. find i m.channel_groups) same ∙ there

  erased-IsClosed :
      occupied h.channels ≡ 0
      → IsClosed k v m (record {
        channel_groups = erase v.group_id m.channel_groups;
        channel_map = erase k m.channel_map;
      })
  unfolding closed
  erased-IsClosed empty =
      closed-IsClosed m k v l e (erase v.group_id m.channel_groups)
        (record {
          ordered = erase-Ordered 0 v.group_id m.channel_groups l.groups.ordered;
          sound = λ j f found. l.groups.sound j f (kept j f found);
          filed = λ j f found. l.groups.filed j f (kept j f found);
        })
        (λ j f found. l.inhabited j f (kept j f found)) (channel_at-none _ v gone) others
    where
      gone : find v.group_id (erase v.group_id m.channel_groups) ≡ none
      gone = find-erase-Ordered v.group_id 0 m.channel_groups l.groups.ordered

      kept :
          (j : ℕ) (f : ChannelGroup)
          → find j (erase v.group_id m.channel_groups) ≡ some f
          → find j m.channel_groups ≡ some f
      kept j f found = elim (Bool-cases (v.group_id == j)) [
        | inl same ↦
            let eq = (==_iff v.group_id j).0 same in
            absurd (ground (arith, gone, ap (λ i. find i (erase v.group_id m.channel_groups)) eq))
        | inr apart ↦
            let ne : v.group_id ≢ j = ground arith in
            sym (find-erase_ne v.group_id j m.channel_groups ne) ∙ found
      ]

      others :
          (w : ChannelMapValue)
          → w ≢ v
          → channel_at (erase v.group_id m.channel_groups) w ≡ channel_at m.channel_groups w
      others w apart = elim (Bool-cases (v.group_id == w.group_id)) [
        | inl same ↦
            let eq = (==_iff v.group_id w.group_id).0 same in
            channel_at-none _ w
              (ap (λ i. find i (erase v.group_id m.channel_groups)) (sym eq) ∙ gone)
            ∙ sym (
                channel_at-some m.channel_groups w g (was_there w (sym eq))
                ∙ sym (rest w.offset (other_slot w apart (sym eq)))
                ∙ get_or_of_empty h.channels w.offset empty)
        | inr ne ↦
            let differ : v.group_id ≢ w.group_id = ground arith in
            channel_at-same _ m.channel_groups w
              (find-erase_ne v.group_id w.group_id m.channel_groups differ)
      ]

  assigned-IsClosed :
      0 < occupied h.channels
      → IsClosed k v m (record {
        channel_groups = assign v.group_id h m.channel_groups;
        channel_map = erase k m.channel_map;
      })
  unfolding closed
  assigned-IsClosed some_left =
      closed-IsClosed m k v l e (assign v.group_id h m.channel_groups)
        (record {
          ordered = assign-Ordered 0 v.group_id g h m.channel_groups there l.groups.ordered;
          sound = λ j f found. elim (either j f found) [
            | inl (same, is_h) ↦ subst IsSound is_h sound
            | inr old ↦ l.groups.sound j f old
          ];
          filed = λ j f found. elim (either j f found) [
            | inl (same, is_h) ↦
                ap (λ (x : ChannelGroup). x.group_id) (sym is_h)
                ∙ same_id
                ∙ l.groups.filed v.group_id g there
                ∙ same
            | inr old ↦ l.groups.filed j f old
          ];
        })
        (λ j f found. elim (either j f found) [
          | inl (same, is_h) ↦ subst (λ (x : ChannelGroup). 0 < occupied x.channels) is_h some_left
          | inr old ↦ l.inhabited j f old
        ])
        (channel_at-some _ v h now ∙ freed) others
    where
      now : find v.group_id (assign v.group_id h m.channel_groups) ≡ some h
      now = ground (arith, find-assign v.group_id v.group_id h m.channel_groups)

      either :
          (j : ℕ) (f : ChannelGroup)
          → find j (assign v.group_id h m.channel_groups) ≡ some f
          → ((v.group_id ≡ j) × (h ≡ f)) ⊎ (find j m.channel_groups ≡ some f)
      either j f found = ground (arith, find-assign v.group_id j h m.channel_groups)

      others :
          (w : ChannelMapValue)
          → w ≢ v
          → channel_at (assign v.group_id h m.channel_groups) w ≡ channel_at m.channel_groups w
      others w apart = elim (Bool-cases (v.group_id == w.group_id)) [
        | inl same ↦
            let eq = (==_iff v.group_id w.group_id).0 same in
            channel_at-some _ w h
              (ap (λ i. find i (assign v.group_id h m.channel_groups)) (sym eq) ∙ now)
            ∙ rest w.offset (other_slot w apart (sym eq))
            ∙ sym (channel_at-some m.channel_groups w g (was_there w (sym eq)))
        | inr ne ↦
            channel_at-same _ m.channel_groups w
              (ground (arith, find-assign v.group_id w.group_id h m.channel_groups))
      ]

  dropped-IsClosed : IsClosed k v m (drop_channel k v.group_id h m)
  unfolding drop_channel
  dropped-IsClosed =
      elim (Bool-cases (leb_ℤ h.live_channels (pos 0) && leb_ℤ (pos 0) h.live_channels)) [
        | inl none_left ↦ let live = sound.live in rw none_left (erased-IsClosed (ground arith))
        | inr some_left ↦ let live = sound.live in rw some_left (assigned-IsClosed (ground arith))
      ]

-- What `closeChannel` of a client with the key `k` leaves and returns.
pub record IsCloseOf (k : ℕ) (m : ChannelManager) (r : ChannelManager × Bool) : Type 0 where
  pub linked : IsLinked r.0
  pub outcome :
      ((r.1 ≡ false) × (find k m.channel_map ≡ none) × (r.0 ≡ m))
      ⊎ ((r.1 ≡ true)
          × ((v : ChannelMapValue) × (find k m.channel_map ≡ some v) × IsClosed k v m r.0))

close_channel-none :
    (tgid uid : ℕ) (m : ChannelManager)
    → find (map_key tgid uid) m.channel_map ≡ none
    → (m, false) ≡ close_channel tgid uid m
unfolding close_channel
close_channel-none tgid uid m e = ground arith

close_in-removed :
    (k : ℕ) (v : ChannelMapValue) (g : ChannelGroup) (m : ChannelManager)
    → (remove_channel v.offset g).1 ≡ true
    → (drop_channel k v.group_id (remove_channel v.offset g).0 m, true) ≡ close_in k v (some g) m
unfolding close_in
close_in-removed k v g m e = rw e refl

close_channel-found :
    (tgid uid : ℕ) (m : ChannelManager) (v : ChannelMapValue) (g : ChannelGroup)
    → find (map_key tgid uid) m.channel_map ≡ some v
    → find v.group_id m.channel_groups ≡ some g
    → close_in (map_key tgid uid) v (some g) m ≡ close_channel tgid uid m
unfolding close_channel
close_channel-found tgid uid m v g e f = ground arith

-- Closing the channel of a client that has one succeeds, removes this channel and no other, and with
-- the last channel of a group the group; for another client the answer is no and nothing changes.
-- The channel map and the slots of the groups stay tied to each other.
pub close_channel-IsCloseOf :
    (tgid uid : ℕ) (m : ChannelManager)
    → IsLinked m
    → IsCloseOf (map_key tgid uid) m (close_channel tgid uid m)
close_channel-IsCloseOf tgid uid m l =
    let k = map_key tgid uid in
    elim (Option-cases (find k m.channel_map)) [
      | inl e ↦
          subst (IsCloseOf k m) (close_channel-none tgid uid m e)
            (record { linked = l; outcome = inl (refl, e, refl) })
      | inr (v, e) ↦
          let (c, at, key) = l.forward k v e in
          let (g, there, slot) = group_of_channel m.channel_groups v c at in
          let r = remove_channel-IsRemoved v.offset g (l.groups.sound v.group_id g there) in
          let out = r.outcome in
          let removed : (remove_channel v.offset g).1 ≡ true = ground arith in
          let freed : get_channel v.offset (remove_channel v.offset g).0 ≡ none = ground arith in
          let closed =
            dropped-IsClosed m k v l e g (remove_channel v.offset g).0 there r.sound r.same_group
              freed r.others in
          subst (IsCloseOf k m)
            (close_in-removed k v g m removed ∙ close_channel-found tgid uid m v g e there)
            (record { linked = closed.linked; outcome = inr (refl, (v, e, closed)) })
    ]
