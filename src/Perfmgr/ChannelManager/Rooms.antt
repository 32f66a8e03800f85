-- ===== src/Perfmgr/ChannelManager/Rooms.antt =====
-- The group that a new channel goes to.
use mathlib.Core.Path.{subst}
use hardware_voltage_interfa.Base.{
  ℕ, suc, ◌≤◌, ◌<◌, ◌≡◌, ◌≢◌, ◌⊎◌, inl, inr, refl, sym, ap, ◌∙◌, ◌==◌, true, none, some, [], ◌∷◌,
  ◌++◌, arith, Option-cases, Bool-cases, ==_iff,
}
use hardware_voltage_interfa.Base.Int.{pos, ltb_ℤ}
use hardware_voltage_interfa.Base.Dict.{Dict, find}
use hardware_voltage_interfa.Perfmgr.ChannelGroup.{ChannelGroup, ChannelMapValue, new}
use hardware_voltage_interfa.Perfmgr.ChannelGroup.Slots.{
  IsSound, occupied, new-IsSound, get_or_of_empty,
}
use hardware_voltage_interfa.Perfmgr.ChannelManager.{channel_at, pick_group, next_id, with_room}
use hardware_voltage_interfa.Perfmgr.ChannelManager.Links.{
  IsFiled, Ordered, find_below, channel_at-some, channel_at-none, channel_at-same,
}

pick_group-some :
    (id lo : ℕ) (groups : Dict ChannelGroup)
    → Ordered lo groups
    → pick_group groups ≡ some id
    → (g : ChannelGroup) × (find id groups ≡ some g) × (ltb_ℤ g.live_channels (pos 16) ≡ true)
unfolding pick_group find
pick_group-some id lo [] o e = absurd (ground arith)
pick_group-some id lo ((k, g) ∷ groups) o e = elim (Bool-cases (ltb_ℤ g.live_channels (pos 16))) [
  | inl free ↦ (g, ground arith, free)
  | inr full ↦
      let (f, found, free) = pick_group-some id (suc k) groups o.1 (ground arith) in
      (f, ground (arith, find_below k (suc k) groups), free)
]

next_id-above :
    (lo k : ℕ) (g : ChannelGroup) (groups : Dict ChannelGroup)
    → Ordered lo ((k, g) ∷ groups)
    → lo < next_id ((k, g) ∷ groups)
unfolding next_id
next_id-above lo k g [] o = omega arith
next_id-above lo k g ((j, f) ∷ groups) o =
    let r = next_id-above (suc k) j f groups o.1 in omega arith

find-next_id :
    (lo n : ℕ) (groups : Dict ChannelGroup)
    → Ordered lo groups
    → next_id groups ≤ n
    → find n groups ≡ none
unfolding find next_id
find-next_id lo n [] o h = refl
find-next_id lo n ((k, g) ∷ []) o h = ground arith
find-next_id lo n ((k, g) ∷ (j, f) ∷ groups) o h =
    let r = next_id-above (suc k) j f groups o.1 in
    let rest = find-next_id (suc k) n ((j, f) ∷ groups) o.1 h in ground arith

append-Ordered :
    (lo n : ℕ) (h : ChannelGroup) (groups : Dict ChannelGroup)
    → Ordered lo groups
    → lo ≤ n
    → next_id groups ≤ n
    → Ordered lo (groups ++ (n, h) ∷ [])
unfolding next_id
append-Ordered lo n h [] o le above = (le, tt)
append-Ordered lo n h ((k, g) ∷ []) o le above = (o.0, (above, tt))
append-Ordered lo n h ((k, g) ∷ (j, f) ∷ groups) o le above =
    let r = next_id-above (suc k) j f groups o.1 in
    (o.0, append-Ordered (suc k) n h ((j, f) ∷ groups) o.1 (omega arith) above)

find-append_ne :
    (j n : ℕ) (h : ChannelGroup) (groups : Dict ChannelGroup)
    → n ≢ j
    → find j (groups ++ (n, h) ∷ []) ≡ find j groups
unfolding find
find-append_ne j n h [] apart = ground arith
find-append_ne j n h ((k, g) ∷ groups) apart = ground (arith, find-append_ne j n h groups)

find-append_self :
    (n : ℕ) (h : ChannelGroup) (groups : Dict ChannelGroup)
    → find n groups ≡ none
    → find n (groups ++ (n, h) ∷ []) ≡ some h
unfolding find
find-append_self n h [] e = ground arith
find-append_self n h ((k, g) ∷ groups) e = ground (arith, find-append_self n h groups)

new_empty : (n : ℕ) → occupied (new n).channels ≡ 0
unfolding new occupied
new_empty n = refl

new_id : (n : ℕ) → (new n).group_id ≡ n
unfolding new
new_id n = refl

-- The groups `r` hold the channels of `groups`, and one of them has room.
pub record HasRoom (groups : Dict ChannelGroup) (r : Dict ChannelGroup × ℕ) : Type 0 where
  pub filed : IsFiled r.0
  pub same : (w : ChannelMapValue) → channel_at r.0 w ≡ channel_at groups w
  pub old : (j : ℕ) (g : ChannelGroup) → find j r.0 ≡ some g → (find j groups ≡ some g) ⊎ (r.1 ≡ j)
  pub room : (g : ChannelGroup) × (find r.1 r.0 ≡ some g) × (occupied g.channels < 16)

module _ (groups : Dict ChannelGroup) (f : IsFiled groups) where
  -- A new group behind all others.
  abbrev appended : Dict ChannelGroup
  appended = groups ++ (next_id groups, new (next_id groups)) ∷ []

  absent : find (next_id groups) groups ≡ none
  absent = find-next_id 0 (next_id groups) groups f.ordered (omega arith)

  old_or_new :
      (j : ℕ) (g : ChannelGroup)
      → find j appended ≡ some g
      → ((next_id groups ≡ j) × (new (next_id groups) ≡ g)) ⊎ (find j groups ≡ some g)
  old_or_new j g found = elim (Bool-cases (next_id groups == j)) [
    | inl same ↦
        let eq = (==_iff (next_id groups) j).0 same in
        let last = find-append_self (next_id groups) (new (next_id groups)) groups absent in
        let moved = ap (λ i. find i appended) eq in inl (eq, ground arith)
    | inr apart ↦
        let ne : next_id groups ≢ j = ground arith in
        inr (sym (find-append_ne j (next_id groups) (new (next_id groups)) groups ne) ∙ found)
  ]

  appended-same : (w : ChannelMapValue) → channel_at appended w ≡ channel_at groups w
  appended-same w = elim (Bool-cases (next_id groups == w.group_id)) [
    | inl same ↦
        let eq = (==_iff (next_id groups) w.group_id).0 same in
        let last = find-append_self (next_id groups) (new (next_id groups)) groups absent in
        channel_at-some appended w (new (next_id groups))
          (ap (λ i. find i appended) (sym eq) ∙ last)
        ∙ get_or_of_empty (new (next_id groups)).channels w.offset (new_empty (next_id groups))
        ∙ sym (channel_at-none groups w (ap (λ i. find i groups) (sym eq) ∙ absent))
    | inr apart ↦
        let ne : next_id groups ≢ w.group_id = ground arith in
        channel_at-same appended groups w
          (find-append_ne w.group_id (next_id groups) (new (next_id groups)) groups ne)
  ]

  appended-HasRoom : HasRoom groups (appended, next_id groups)
  appended-HasRoom = record {
    filed = record {
      ordered =
          append-Ordered 0 (next_id groups) (new (next_id groups)) groups f.ordered (omega arith)
            (omega arith);
      sound = λ j g found. elim (old_or_new j g found) [
        | inl (here, is_new) ↦ subst IsSound is_new (new-IsSound (next_id groups))
        | inr there ↦ f.sound j g there
      ];
      filed = λ j g found. elim (old_or_new j g found) [
        | inl (here, is_new) ↦
            ap (λ (x : ChannelGroup). x.group_id) (sym is_new) ∙ new_id (next_id groups) ∙ here
        | inr there ↦ f.filed j g there
      ];
    };
    same = appended-same;
    old = λ j g found. elim (old_or_new j g found) [
      | inl (here, is_new) ↦ inr here
      | inr there ↦ inl there
    ];
    room = (
      new (next_id groups),
      find-append_self (next_id groups) (new (next_id groups)) groups absent,
      new_room (next_id groups),
    );
  }
    where
      new_room : (n : ℕ) → occupied (new n).channels < 16
      new_room n = omega (arith, new_empty n)

  -- Whatever group is picked, it has room, and no channel moves.
  pub with_room-HasRoom : HasRoom groups (with_room (pick_group groups) groups)
  unfolding with_room
  with_room-HasRoom = elim (Option-cases (pick_group groups)) [
    | inl e ↦ rw e appended-HasRoom
    | inr (id, e) ↦
        let (g, found, free) = pick_group-some id 0 groups f.ordered e in
        let live = (f.sound id g found).live in
        rw e (record {
          filed = f;
          same = λ w. refl;
          old = λ j h there. inl there;
          room = (g, found, ground arith);
        })
  ]
