-- ===== src/Perfmgr/ChannelManager.antt =====
-- power-libperfmgr/aidl/ChannelManager.h and ChannelManager.cpp: the channels of clients, over the
-- groups of Perfmgr/ChannelGroup.antt. A process id and a user id are the numbers of their 32 bits.
-- `std::map` is an association list in the order of its keys. None is the end of the process, by
-- `LOG_ALWAYS_FATAL_IF` or by `at` on a missing key.
pub mod Links
pub mod Closing
mod Rooms
pub mod Opening
pub mod History
mod Tests
use hardware_voltage_interfa.Base.{
  ℕ, suc, ◌+◌, ◌*◌, ◌%◌, ◌^◌, Bool, true, false, not, ◌&&◌, if◌then◌else◌, Option, none, some, List,
  [], ◌∷◌, ◌++◌, length,
}
use hardware_voltage_interfa.Base.Int.{ℤ, pos, pos_part, ◌+ℤ◌, ltb_ℤ, leb_ℤ}
use hardware_voltage_interfa.Base.Dict.{Dict, find, assign, erase}
use hardware_voltage_interfa.Perfmgr.ChannelGroup.{
  ChannelGroup, SessionChannel, ChannelMapValue, remove_channel, create_channel, get_channel,
  max_channels, new,
}

pub record ChannelManager : Type 0 where
  pub channel_groups : Dict ChannelGroup
  pub channel_map : Dict ChannelMapValue

-- `ChannelMapKey`: the 64 bits of the two ids.
abbrev pub map_key : ℕ → ℕ → ℕ
map_key tgid uid = tgid % 2 ^ 32 + uid % 2 ^ 32 * 2 ^ 32

-- `closeChannel` from where the group has removed the channel.
unfoldable pub drop_channel : ℕ → ℕ → ChannelGroup → ChannelManager → ChannelManager
drop_channel key id g m = record {
  channel_groups =
      if leb_ℤ g.live_channels (pos 0) && leb_ℤ (pos 0) g.live_channels
      then erase id m.channel_groups
      else assign id g m.channel_groups;
  channel_map = erase key m.channel_map;
}

unfoldable pub close_in :
    ℕ → ChannelMapValue → Option ChannelGroup → ChannelManager → ChannelManager × Bool
close_in key v none m = (m, false)
close_in key v (some g) m =
    let (h, removed) = remove_channel v.offset g in
    if not removed then (m, false) else (drop_channel key v.group_id h m, true)

unfoldable pub close_channel : ℕ → ℕ → ChannelManager → ChannelManager × Bool
close_channel tgid uid m = elim (find (map_key tgid uid) m.channel_map) [
  | none ↦ (m, false)
  | some v ↦ close_in (map_key tgid uid) v (find v.group_id m.channel_groups) m
]

-- The first group with a free slot.
unfoldable pub pick_group : Dict ChannelGroup → Option ℕ
pick_group [] = none
pick_group ((id, g) ∷ groups) =
    if ltb_ℤ g.live_channels (pos max_channels) then some id else pick_group groups

-- One more than the last key, or 0.
unfoldable pub next_id : Dict ChannelGroup → ℕ
next_id [] = 0
next_id ((id, g) ∷ []) = suc id
next_id ((id, g) ∷ h ∷ groups) = next_id (h ∷ groups)

-- The groups with one that has a free slot, and its id. The new key is the greatest.
unfoldable pub with_room : Option ℕ → Dict ChannelGroup → Dict ChannelGroup × ℕ
with_room (some id) groups = (groups, id)
with_room none groups = (groups ++ (next_id groups, new (next_id groups)) ∷ [], next_id groups)

-- `mChannelGroups.at(groupId).createChannel(tgid, uid)`, and the new entry of the map.
unfoldable pub create_in :
    ℕ → ℕ → Dict ChannelGroup → ℕ → ChannelManager → Option (ChannelManager × SessionChannel)
create_in tgid uid groups id m = elim (find id groups) [
  | none ↦ none
  | some g ↦ elim (create_channel tgid uid g) [
    | none ↦ none
    | some (h, channel) ↦ some (
      record {
        channel_groups = assign id h groups;
        channel_map = assign (map_key tgid uid) channel.id m.channel_map;
      },
      channel,
    )
  ]
]

-- The channel at a place; `at` and `getChannel` end the process where there is none.
unfoldable pub channel_at : Dict ChannelGroup → ChannelMapValue → Option SessionChannel
channel_at groups v = elim (find v.group_id groups) [
  | none ↦ none
  | some g ↦ get_channel v.offset g
]

unfoldable pub get_or_create_channel :
    ℕ → ℕ → ChannelManager → Option (ChannelManager × SessionChannel)
get_or_create_channel tgid uid m = elim (find (map_key tgid uid) m.channel_map) [
  | some v ↦ elim (channel_at m.channel_groups v) [ none ↦ none | some c ↦ some (m, c) ]
  | none ↦
      let (groups, id) = with_room (pick_group m.channel_groups) m.channel_groups in
      create_in tgid uid groups id m
]

-- `config->readFlagBitmask` and `config->writeFlagBitmask`; the descriptors are those of the queues.
-- `valid` is whether the queue of a channel is. No config is the result false.
unfoldable pub get_channel_config :
    (SessionChannel → Bool) → ℕ → ℕ → ChannelManager → Option (ChannelManager × Option (ℕ × ℕ))
get_channel_config valid tgid uid m = elim (get_or_create_channel tgid uid m) [
  | none ↦ none
  | some (n, c) ↦ some (n, if not (valid c) then none else some (c.read_mask, c.write_mask))
]

unfoldable pub get_group_count : ChannelManager → ℕ
get_group_count m = length m.channel_groups

unfoldable pub count_channels : Dict ChannelGroup → ℤ
count_channels [] = pos 0
count_channels ((id, g) ∷ groups) = g.live_channels +ℤ count_channels groups

unfoldable pub get_channel_count : ChannelManager → ℤ
unfolding count_channels
get_channel_count m = count_channels m.channel_groups
