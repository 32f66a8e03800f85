-- ===== src/Perfmgr/ChannelGroup/Tests.antt =====
-- A group with two channels, and messages for two sessions.
use mathlib.Core.Option
use hardware_voltage_interfa.Base.{
  ℕ, ◌≡◌, refl, Bool, true, false, ◌==◌, ◌*◌, if◌then◌else◌, some, none, List, [], ◌∷◌, replicate,
  arith,
}
use hardware_voltage_interfa.Base.Int.{pos}
use hardware_voltage_interfa.Perfmgr.ChannelGroup.{
  SessionChannel, ChannelGroup, new_channel, create_channel, first_free, ChannelMessage, hint,
  work_duration, WorkDuration, send_hint, report_actual_work_duration, dispatch, turn, hand_over,
  durations_of,
}
use hardware_voltage_interfa.Perfmgr.ChannelGroup.Slots.{
  IsSound, IsCreated, create_channel-IsCreated, occupied,
}
use hardware_voltage_interfa.Perfmgr.ChannelGroup.Messages.{
  events_of_calls, events_of, dispatch_lem,
}

abbrev channel : ℕ → ℕ → ℕ → SessionChannel
channel tgid i bit = record {
  tgid = tgid;
  uid = 10;
  id = record { group_id = 3; offset = i };
  read_mask = bit * 65536;
  write_mask = bit;
}

-- Channels in the slots 0 and 2.
abbrev two_channels : ChannelGroup
two_channels = record {
  live_channels = pos 2;
  group_id = 3;
  channels = some (channel 100 0 1) ∷ none ∷ some (channel 200 2 4) ∷ replicate 13 none;
}

two_channels-IsSound : IsSound two_channels
unfolding occupied
two_channels-IsSound = record {
  slots = refl;
  live = refl;
  placed = (
    record { group = refl; slot = refl; write_bit = refl; read_bit = refl },
    (record { group = refl; slot = refl; write_bit = refl; read_bit = refl }, tt),
  );
}

second_slot : Option.map (λ r. r.1.write_mask) (create_channel 300 10 two_channels) ≡ some 2
unfolding create_channel first_free new_channel
second_slot = refl

create_channel-IsCreated_example :
    (r : ChannelGroup × SessionChannel) × (create_channel 300 10 two_channels ≡ some r)
    × IsCreated 300 10 two_channels r
unfolding occupied
create_channel-IsCreated_example =
    create_channel-IsCreated 300 10 two_channels two_channels-IsSound (omega arith)

abbrev message : ℕ → ℕ → ChannelMessage
message id n = record {
  session_id = id;
  time_stamp_nanos = pos n;
  contents = work_duration (pos 5) (pos 3) (pos 2) (pos 1);
}

abbrev messages : List ChannelMessage
messages =
    message 7 1
    ∷ message 7 2
    ∷ record { session_id = 7; time_stamp_nanos = pos 3; contents = hint 4 }
    ∷ message 9 4
    ∷ message 8 5
    ∷ []

abbrev is_known : ℕ → Bool
is_known id = if id == 9 then false else true

abbrev worked_at : ℕ → WorkDuration
worked_at n = record {
  time_stamp_nanos = pos n;
  duration_nanos = pos 5;
  cpu_duration_nanos = pos 3;
  gpu_duration_nanos = pos 2;
  work_period_start_timestamp_nanos = pos 1;
}

batched :
    dispatch is_known 5 messages
    ≡ report_actual_work_duration 7 (worked_at 1 ∷ worked_at 2 ∷ [])
      ∷ send_hint 7 4
      ∷ report_actual_work_duration 8 (worked_at 5 ∷ [])
      ∷ []
unfolding dispatch turn hand_over durations_of
batched = refl

dispatch_lem_example : events_of_calls (dispatch is_known 5 messages) ≡ events_of is_known messages
dispatch_lem_example = dispatch_lem is_known 5 messages (omega arith)
