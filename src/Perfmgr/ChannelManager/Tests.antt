-- ===== src/Perfmgr/ChannelManager/Tests.antt =====
-- Two clients.
use hardware_voltage_interfa.Base.{
  ◌≡◌, Bool, true, false, none, some, List, [], ◌∷◌, ◌⊎◌, refl, ℕ, replicate, sym, ap, ◌∙◌,
}
use mathlib.Core.Path.{subst}
use hardware_voltage_interfa.Base.Int.{◌+ℤ◌, ◌-ℤ◌, pos}
use hardware_voltage_interfa.Base.Dict.{find, assign, erase}
use mathlib.Core.Option
use hardware_voltage_interfa.Perfmgr.ChannelGroup.{
  SessionChannel, new, new_channel, create_channel, first_free, remove_channel,
}
use hardware_voltage_interfa.Perfmgr.ChannelManager.{
  ChannelManager, map_key, channel_at, close_channel, close_in, drop_channel, get_or_create_channel,
  with_room, create_in, pick_group, next_id, get_channel_config, get_channel_count, get_group_count,
  count_channels,
}
use hardware_voltage_interfa.Perfmgr.ChannelManager.Links.{IsLinked}
use hardware_voltage_interfa.Perfmgr.ChannelManager.Closing.{IsCloseOf, close_channel-IsCloseOf}
use hardware_voltage_interfa.Perfmgr.ChannelManager.Opening.{
  IsOpened, get_or_create_channel-IsOpened,
}
use hardware_voltage_interfa.Perfmgr.ChannelManager.History.{
  ChannelCall, configs, closes, call, run, empty, empty-IsLinked, run-IsRun, is_open, open_after,
}

abbrev always : SessionChannel → Bool
always c = true

abbrev calls : List ChannelCall
calls = configs 100 10 ∷ configs 200 10 ∷ configs 100 10 ∷ closes 100 10 ∷ []

-- One group stays, with the channel of the second client.
one_group : Option.map get_group_count (run always calls empty) ≡ some 1
unfolding run call get_channel_config get_or_create_channel with_room create_in pick_group next_id
    create_channel first_free new_channel new channel_at close_channel close_in drop_channel
    remove_channel find assign erase get_group_count ◌+ℤ◌ ◌-ℤ◌
one_group = refl

one_channel : Option.map get_channel_count (run always calls empty) ≡ some (pos 1)
unfolding run call get_channel_config get_or_create_channel with_room create_in pick_group next_id
    create_channel first_free new_channel new channel_at close_channel close_in drop_channel
    remove_channel find assign erase get_channel_count count_channels ◌+ℤ◌ ◌-ℤ◌
one_channel = refl

run-IsRun_example :
    (n : ChannelManager) × (run always calls empty ≡ some n)
    × IsLinked n
    × ((k : ℕ) → is_open k n ≡ open_after k false calls)
run-IsRun_example = run-IsRun always calls

abbrev first_channel : SessionChannel
first_channel = record {
  tgid = 100;
  uid = 10;
  id = record { group_id = 0; offset = 0 };
  read_mask = 65536;
  write_mask = 1;
}

abbrev one_client : ChannelManager
one_client = record {
  channel_groups =
      (
        0,
        record {
          live_channels = pos 1;
          group_id = 0;
          channels = some first_channel ∷ replicate 15 none;
        },
      )
      ∷ [];
  channel_map = (map_key 100 10, record { group_id = 0; offset = 0 }) ∷ [];
}

opens_first : get_or_create_channel 100 10 empty ≡ some (one_client, first_channel)
unfolding get_or_create_channel with_room create_in pick_group next_id create_channel first_free
    new_channel new find assign ◌+ℤ◌
opens_first = refl

some_inj : (a b : ChannelManager × SessionChannel) → some a ≡ some b → a ≡ b
some_inj a b h = cc

one_client-IsLinked : IsLinked one_client
one_client-IsLinked =
    let (r, e, o, old) = get_or_create_channel-IsOpened 100 10 empty empty-IsLinked in
    let same : (one_client, first_channel) ≡ r = some_inj _ r (sym opens_first ∙ e) in
    subst IsLinked (ap (λ (x : ChannelManager × SessionChannel). x.0) (sym same)) o.linked

close_channel-IsCloseOf_example :
    IsCloseOf (map_key 100 10) one_client (close_channel 100 10 one_client)
close_channel-IsCloseOf_example = close_channel-IsCloseOf 100 10 one_client one_client-IsLinked

get_or_create_channel-IsOpened_example :
    (r : ChannelManager × SessionChannel) × (get_or_create_channel 200 10 one_client ≡ some r)
    × IsOpened 200 10 one_client r
    × ((r.0 ≡ one_client) ⊎ (find (map_key 200 10) one_client.channel_map ≡ none))
get_or_create_channel-IsOpened_example =
    get_or_create_channel-IsOpened 200 10 one_client one_client-IsLinked
