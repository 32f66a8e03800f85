-- ===== src/Perfmgr/ChannelGroup/Slots.antt =====
-- The slots of a group and the bits of its channels.
use mathlib.Core.Path.{subst}
use hardware_voltage_interfa.Base.{
  ℕ, zero, suc, ◌+◌, ◌%◌, ◌^◌, ◌<◌, ◌≡◌, ◌≢◌, ◌⊎◌, inl, inr, refl, ap, Bool, true, false, Option,
  none, some, List, [], ◌∷◌, length, get_or, set, replicate, arith, length-set, get_or-set_self,
  get_or-set_ne, sym, ◌∙◌, Option-cases, ==_ne,
}
use hardware_voltage_interfa.Base.Int.{pos, ◌+ℤ◌, ◌-ℤ◌}
use hardware_voltage_interfa.Perfmgr.ChannelGroup.{
  SessionChannel, ChannelMapValue, ChannelGroup, max_channels, new_channel, new, remove_channel,
  first_free, create_channel, get_channel,
}

unfoldable pub occupied : List (Option SessionChannel) → ℕ
occupied [] = 0
occupied (none ∷ cs) = occupied cs
occupied (some _ ∷ cs) = suc (occupied cs)

-- A channel in slot `i` of group `g` knows where it is and has that slot's bits.
pub record IsAt (g i : ℕ) (c : SessionChannel) : Type 0 where
  pub group : c.id.group_id ≡ g
  pub slot : c.id.offset ≡ i
  pub write_bit : c.write_mask ≡ 2 ^ i % 2 ^ 32
  pub read_bit : c.read_mask ≡ 2 ^ (i + 16) % 2 ^ 32

abbrev pub AllAt : ℕ → ℕ → List (Option SessionChannel) → Type 0
AllAt g i [] = Unit
AllAt g i (none ∷ cs) = AllAt g (suc i) cs
AllAt g i (some c ∷ cs) = IsAt g i c × AllAt g (suc i) cs

pub record IsSound (g : ChannelGroup) : Type 0 where
  pub slots : length g.channels ≡ 16
  pub live : g.live_channels ≡ pos (occupied g.channels)
  pub placed : AllAt g.group_id 0 g.channels

occupied-replicate : (n : ℕ) → occupied (replicate n none) ≡ 0
unfolding occupied
occupied-replicate zero = refl
occupied-replicate (suc n) = occupied-replicate n

-- The loop finds a free slot where there is one.
first_free_bound :
    (cs : List (Option SessionChannel)) → occupied cs < length cs → first_free cs < length cs
unfolding first_free occupied
first_free_bound [] h = absurd (omega arith)
first_free_bound (none ∷ cs) h = omega arith
first_free_bound (some c ∷ cs) h = let r = first_free_bound cs (omega arith) in omega arith

occupied-set-first_free :
    (cs : List (Option SessionChannel)) (c : SessionChannel)
    → occupied cs < length cs
    → occupied (set cs (first_free cs) (some c)) ≡ suc (occupied cs)
unfolding first_free occupied
occupied-set-first_free [] c h = absurd (omega arith)
occupied-set-first_free (none ∷ cs) c h = refl
occupied-set-first_free (some d ∷ cs) c h = ap suc (occupied-set-first_free cs c (omega arith))

get_or-first_free : (cs : List (Option SessionChannel)) → get_or cs (first_free cs) none ≡ none
unfolding first_free
get_or-first_free [] = refl
get_or-first_free (none ∷ cs) = refl
get_or-first_free (some d ∷ cs) = get_or-first_free cs

AllAt-set :
    (g i : ℕ) (cs : List (Option SessionChannel)) (k : ℕ) (c : SessionChannel)
    → IsAt g (i + k) c
    → AllAt g i cs
    → AllAt g i (set cs k (some c))
AllAt-set g i [] k c h a = a
AllAt-set g i (none ∷ cs) zero c h a = (subst (λ n. IsAt g n c) (omega arith) h, a)
AllAt-set g i (some d ∷ cs) zero c h a = (subst (λ n. IsAt g n c) (omega arith) h, a.1)
AllAt-set g i (none ∷ cs) (suc k) c h a =
    AllAt-set g (suc i) cs k c (subst (λ n. IsAt g n c) (omega arith) h) a
AllAt-set g i (some d ∷ cs) (suc k) c h a =
    (a.0, AllAt-set g (suc i) cs k c (subst (λ n. IsAt g n c) (omega arith) h) a.1)

AllAt-clear :
    (g i : ℕ) (cs : List (Option SessionChannel)) (k : ℕ) → AllAt g i cs → AllAt g i (set cs k none)
AllAt-clear g i [] k a = a
AllAt-clear g i (none ∷ cs) zero a = a
AllAt-clear g i (some d ∷ cs) zero a = a.1
AllAt-clear g i (none ∷ cs) (suc k) a = AllAt-clear g (suc i) cs k a
AllAt-clear g i (some d ∷ cs) (suc k) a = (a.0, AllAt-clear g (suc i) cs k a.1)

AllAt-replicate : (g i n : ℕ) → AllAt g i (replicate n none)
AllAt-replicate g i zero = tt
AllAt-replicate g i (suc n) = AllAt-replicate g (suc i) n

pub IsAt-get :
    (g i : ℕ) (cs : List (Option SessionChannel)) (k : ℕ) (c : SessionChannel)
    → AllAt g i cs
    → get_or cs k none ≡ some c
    → IsAt g (i + k) c
IsAt-get g i [] k c a e = ground arith
IsAt-get g i (none ∷ cs) zero c a e = ground arith
IsAt-get g i (some d ∷ cs) zero c a e =
    subst (λ n. IsAt g n c) (omega arith) (subst (IsAt g i) (ground arith) a.0)
IsAt-get g i (none ∷ cs) (suc k) c a e =
    subst (λ n. IsAt g n c) (omega arith) (IsAt-get g (suc i) cs k c a e)
IsAt-get g i (some d ∷ cs) (suc k) c a e =
    subst (λ n. IsAt g n c) (omega arith) (IsAt-get g (suc i) cs k c a.1 e)

occupied-clear :
    (cs : List (Option SessionChannel)) (k : ℕ) (c : SessionChannel)
    → get_or cs k none ≡ some c
    → suc (occupied (set cs k none)) ≡ occupied cs
unfolding occupied
occupied-clear [] k c e = ground arith
occupied-clear (none ∷ cs) zero c e = ground arith
occupied-clear (some d ∷ cs) zero c e = refl
occupied-clear (none ∷ cs) (suc k) c e = occupied-clear cs k c e
occupied-clear (some d ∷ cs) (suc k) c e = ap suc (occupied-clear cs k c e)

-- A new group is sound.
pub new-IsSound : (id : ℕ) → IsSound (new id)
unfolding new occupied
new-IsSound id = record { slots = refl; live = refl; placed = AllAt-replicate id 0 16 }

new_channel-IsAt :
    (tgid uid g i : ℕ) → IsAt g i (new_channel tgid uid (record { group_id = g; offset = i }) i)
unfolding new_channel
new_channel-IsAt tgid uid g i = record {
  group = refl;
  slot = refl;
  write_bit = refl;
  read_bit = refl;
}

owner-new_channel :
    (tgid uid : ℕ) (id : ChannelMapValue) (i : ℕ)
    → ((new_channel tgid uid id i).tgid ≡ tgid) × ((new_channel tgid uid id i).uid ≡ uid)
unfolding new_channel
owner-new_channel tgid uid id i = (refl, refl)

id-new_channel : (tgid uid : ℕ) (id : ChannelMapValue) (i : ℕ) → (new_channel tgid uid id i).id ≡ id
unfolding new_channel
id-new_channel tgid uid id i = refl

in_slot-new_channel :
    (tgid uid : ℕ) (g : ChannelGroup) (i : ℕ)
    → i < length g.channels
    → let c = new_channel tgid uid (record { group_id = g.group_id; offset = i }) i in
      get_or (set g.channels i (some c)) c.id.offset none ≡ some c
unfolding new_channel
in_slot-new_channel tgid uid g i h =
    get_or-set_self g.channels i
      (some (new_channel tgid uid (record { group_id = g.group_id; offset = i }) i)) none h

created-IsSound :
    (g : ChannelGroup) (c : SessionChannel)
    → IsSound g
    → occupied g.channels < length g.channels
    → IsAt g.group_id (first_free g.channels) c
    → IsSound (record g {
      live_channels = g.live_channels +ℤ pos 1;
      channels = set g.channels (first_free g.channels) (some c);
    })
unfolding ◌+ℤ◌
created-IsSound g c s room at = record {
  slots =
      let e = length-set g.channels (first_free g.channels) (some c) in
      let size = s.slots in omega arith;
  live = let e = occupied-set-first_free g.channels c room in let live = s.live in ground arith;
  placed =
      AllAt-set g.group_id 0 g.channels (first_free g.channels) c
        (subst (λ n. IsAt g.group_id n c) (omega arith) at) s.placed;
}

cleared-IsSound :
    (slot : ℕ) (g : ChannelGroup) (c : SessionChannel)
    → get_or g.channels slot none ≡ some c
    → IsSound g
    → IsSound
        (record g { live_channels = g.live_channels -ℤ pos 1; channels = set g.channels slot none })
unfolding ◌-ℤ◌
cleared-IsSound slot g c found s = record {
  slots = let e = length-set g.channels slot none in let size = s.slots in omega arith;
  live = let e = occupied-clear g.channels slot c found in let live = s.live in ground arith;
  placed = AllAt-clear g.group_id 0 g.channels slot s.placed;
}

get_or-set-none : (cs : List (Option SessionChannel)) (k : ℕ) → get_or (set cs k none) k none ≡ none
get_or-set-none [] k = refl
get_or-set-none (c ∷ cs) zero = refl
get_or-set-none (c ∷ cs) (suc k) = get_or-set-none cs k

-- What `createChannel` leaves.
pub record IsCreated (tgid uid : ℕ) (g : ChannelGroup) (r : ChannelGroup × SessionChannel)
    : Type 0 where
  pub sound : IsSound r.0
  pub one_more : r.0.live_channels ≡ g.live_channels +ℤ pos 1
  pub in_slot : get_channel r.1.id.offset r.0 ≡ some r.1
  pub owner : (r.1.tgid ≡ tgid) × (r.1.uid ≡ uid)
  pub same_group : r.0.group_id ≡ g.group_id
  pub in_group : r.1.id.group_id ≡ g.group_id
  pub was_free : get_channel r.1.id.offset g ≡ none
  pub others : (k : ℕ) → k ≢ r.1.id.offset → get_channel k r.0 ≡ get_channel k g
  pub more : occupied r.0.channels ≡ suc (occupied g.channels)

-- Where a group has less than sixteen channels, creating one does not end the process: it returns a
-- channel for the client, which stands in its slot, one that was free, in a group that is as sound as
-- before and has one channel more and all others as before.
pub create_channel-IsCreated :
    (tgid uid : ℕ) (g : ChannelGroup)
    → IsSound g
    → occupied g.channels < max_channels
    → (r : ChannelGroup × SessionChannel) × (create_channel tgid uid g ≡ some r)
      × IsCreated tgid uid g r
unfolding create_channel
create_channel-IsCreated tgid uid g s room =
    let slot = first_free g.channels in
    let c = new_channel tgid uid (record { group_id = g.group_id; offset = slot }) slot in
    let place : ChannelMapValue = record { group_id = g.group_id; offset = slot } in
    let offset : c.id.offset ≡ slot =
      ap (λ (v : ChannelMapValue). v.offset) (id-new_channel tgid uid place slot) in
    let size = s.slots in
    let bound = first_free_bound g.channels (omega arith) in
    let ne : slot ≢ 16 = omega arith in
    let h : ChannelGroup = record {
      live_channels = g.live_channels +ℤ pos 1;
      group_id = g.group_id;
      channels = set g.channels slot (some c);
    } in
    let e : create_channel tgid uid g ≡ some (h, c) = rw (==_ne slot 16 ne) refl in
    (
      (h, c),
      e,
      record {
        sound = created-IsSound g c s (omega arith) (new_channel-IsAt tgid uid g.group_id slot);
        one_more = refl;
        in_slot = in_slot-new_channel tgid uid g slot bound;
        owner = owner-new_channel tgid uid (record { group_id = g.group_id; offset = slot }) slot;
        same_group = refl;
        in_group = ap (λ (v : ChannelMapValue). v.group_id) (id-new_channel tgid uid place slot);
        was_free = rw offset (get_or-first_free g.channels);
        others = λ k apart.
            get_or-set_ne g.channels slot k (some c) none (λ e. apart (sym (offset ∙ e)));
        more = occupied-set-first_free g.channels c (omega arith);
      },
    )

-- What `removeChannel` leaves and returns.
pub record IsRemoved (slot : ℕ) (g : ChannelGroup) (r : ChannelGroup × Bool) : Type 0 where
  pub sound : IsSound r.0
  pub outcome :
      ((r.1 ≡ false) × (get_channel slot g ≡ none) × (r.0 ≡ g))
      ⊎ ((r.1 ≡ true)
          × (get_channel slot r.0 ≡ none)
          × (suc (occupied r.0.channels) ≡ occupied g.channels))
  pub others : (k : ℕ) → k ≢ slot → get_channel k r.0 ≡ get_channel k g
  pub same_group : r.0.group_id ≡ g.group_id

remove_channel-none :
    (slot : ℕ) (g : ChannelGroup)
    → get_or g.channels slot none ≡ none
    → (g, false) ≡ remove_channel slot g
unfolding remove_channel
remove_channel-none slot g e = ground arith

remove_channel-some :
    (slot : ℕ) (g : ChannelGroup) (c : SessionChannel)
    → get_or g.channels slot none ≡ some c
    → (
      record g { channels = set g.channels slot none; live_channels = g.live_channels -ℤ pos 1 },
      true,
    )
      ≡ remove_channel slot g
unfolding remove_channel
remove_channel-some slot g c e = ground arith

-- Removing the channel of a slot frees the slot and no other, and the group is as sound as before;
-- for a slot without a channel the answer is no, and nothing changes.
pub remove_channel-IsRemoved :
    (slot : ℕ) (g : ChannelGroup) → IsSound g → IsRemoved slot g (remove_channel slot g)
remove_channel-IsRemoved slot g s = elim (Option-cases (get_channel slot g)) [
  | inl e ↦ subst (IsRemoved slot g) (remove_channel-none slot g e) (record {
    sound = s;
    outcome = inl (refl, e, refl);
    others = λ k apart. refl;
    same_group = refl;
  })
  | inr (c, e) ↦ subst (IsRemoved slot g) (remove_channel-some slot g c e) (record {
    sound = cleared-IsSound slot g c e s;
    outcome = inr (refl, get_or-set-none g.channels slot, occupied-clear g.channels slot c e);
    others = λ k apart. get_or-set_ne g.channels slot k none none (λ e. apart (sym e));
    same_group = refl;
  })
]

pub get_or_of_empty :
    (cs : List (Option SessionChannel)) (k : ℕ) → occupied cs ≡ 0 → get_or cs k none ≡ none
unfolding occupied
get_or_of_empty [] k e = refl
get_or_of_empty (none ∷ cs) zero e = refl
get_or_of_empty (none ∷ cs) (suc k) e = get_or_of_empty cs k e
get_or_of_empty (some c ∷ cs) k e = absurd (omega arith)
