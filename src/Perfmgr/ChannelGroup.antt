-- ===== src/Perfmgr/ChannelGroup.antt =====
-- power-libperfmgr/aidl/ChannelGroup.h and ChannelGroup.cpp, with SessionChannel.h and
-- SessionChannel.cpp: the channels of a group and the messages that its thread hands to sessions.
-- The queue of a channel and the event flag are code of another repository and stand for
-- themselves: a run of `dispatch` is told the messages that a read returned.
pub mod Slots
pub mod Bits
pub mod Messages
mod Tests
use hardware_voltage_interfa.Base.{
  ℕ, zero, suc, ◌+◌, ◌%◌, ◌^◌, Bool, true, false, not, ◌==◌, if◌then◌else◌, Option, none, some,
  List, [], ◌∷◌, length, ◌++◌, get_or, set, replicate,
}
use hardware_voltage_interfa.Base.Int.{ℤ, pos, ◌-ℤ◌, ◌+ℤ◌}

-- `ChannelMapValue`: the group and the slot of a channel.
pub record ChannelMapValue : Type 0 where
  pub group_id : ℕ
  pub offset : ℕ

pub record SessionChannel : Type 0 where
  pub tgid : ℕ
  pub uid : ℕ
  pub id : ChannelMapValue
  pub read_mask : ℕ
  pub write_mask : ℕ

abbrev pub max_channels : ℕ
max_channels = 16

unfoldable pub new_channel : ℕ → ℕ → ChannelMapValue → ℕ → SessionChannel
new_channel tgid uid id offset = record {
  tgid = tgid;
  uid = uid;
  id = id;
  read_mask = 2 ^ (offset + 16) % 2 ^ 32;
  write_mask = 2 ^ offset % 2 ^ 32;
}

pub record ChannelGroup : Type 0 where
  pub live_channels : ℤ
  pub group_id : ℕ
  pub channels : List (Option SessionChannel)

unfoldable pub new : ℕ → ChannelGroup
new id = record { live_channels = pos 0; group_id = id; channels = replicate max_channels none }

unfoldable pub remove_channel : ℕ → ChannelGroup → ChannelGroup × Bool
remove_channel slot g = elim (get_or g.channels slot none) [
  | none ↦ (g, false)
  | some _ ↦ (
    record g { channels = set g.channels slot none; live_channels = g.live_channels -ℤ pos 1 },
    true,
  )
]

-- The loop of `createChannel`: the first slot without a channel, or the number of slots.
unfoldable pub first_free : List (Option SessionChannel) → ℕ
first_free [] = 0
first_free (none ∷ cs) = 0
first_free (some _ ∷ cs) = suc (first_free cs)

-- None is the end of the process.
unfoldable pub create_channel : ℕ → ℕ → ChannelGroup → Option (ChannelGroup × SessionChannel)
create_channel tgid uid g =
    let slot = first_free g.channels in
    let channel = new_channel tgid uid (record { group_id = g.group_id; offset = slot }) slot in
    if slot == max_channels
    then none
    else some (
      record g {
        channels = set g.channels slot (some channel);
        live_channels = g.live_channels +ℤ pos 1;
      },
      channel,
    )

abbrev pub get_channel : ℕ → ChannelGroup → Option SessionChannel
get_channel slot g = get_or g.channels slot none

pub record WorkDuration : Type 0 where
  pub time_stamp_nanos : ℤ
  pub duration_nanos : ℤ
  pub cpu_duration_nanos : ℤ
  pub gpu_duration_nanos : ℤ
  pub work_period_start_timestamp_nanos : ℤ

-- `ChannelMessage::ChannelMessageContents`; the fields of a work duration without its time stamp.
pub data Contents : Type 0 where
  hint : ℕ → Contents
  target_duration : ℤ → Contents
  work_duration : ℤ → ℤ → ℤ → ℤ → Contents
  mode : ℕ → Bool → Contents
  invalid : Contents

pub record ChannelMessage : Type 0 where
  pub session_id : ℕ
  pub time_stamp_nanos : ℤ
  pub contents : Contents

-- The calls of a session, by its id.
pub data SessionCall : Type 0 where
  send_hint : ℕ → ℕ → SessionCall
  update_target_work_duration : ℕ → ℤ → SessionCall
  report_actual_work_duration : ℕ → List WorkDuration → SessionCall
  set_mode : ℕ → ℕ → Bool → SessionCall

-- The loop over the work durations of one session: the durations, and the messages behind them.
-- `take_duration` is told what the loop does behind the message.
abbrev pub take_duration :
    ℕ
    → ChannelMessage
    → List ChannelMessage
    → List WorkDuration × List ChannelMessage
    → Contents
    → List WorkDuration × List ChannelMessage
take_duration id m ms (durations, rest) (work_duration total cpu gpu start) =
    if m.session_id == id
    then (
      record {
        time_stamp_nanos = m.time_stamp_nanos;
        duration_nanos = total;
        cpu_duration_nanos = cpu;
        gpu_duration_nanos = gpu;
        work_period_start_timestamp_nanos = start;
      }
          ∷ durations,
      rest,
    )
    else ([], m ∷ ms)
take_duration id m ms behind (hint h) = ([], m ∷ ms)
take_duration id m ms behind (target_duration t) = ([], m ∷ ms)
take_duration id m ms behind (mode i e) = ([], m ∷ ms)
take_duration id m ms behind invalid = ([], m ∷ ms)

unfoldable pub durations_of : ℕ → List ChannelMessage → List WorkDuration × List ChannelMessage
durations_of id [] = ([], [])
durations_of id (m ∷ ms) = take_duration id m ms (durations_of id ms) m.contents

-- `if (!durations.empty())`: what is reported, and the messages that come next.
abbrev pub report_durations :
    ℕ
    → List WorkDuration
    → List ChannelMessage
    → List ChannelMessage
    → List SessionCall × List ChannelMessage
report_durations id [] rest ms = ([], ms)
report_durations id (d ∷ ds) rest ms = (report_actual_work_duration id (d ∷ ds) ∷ [], rest)

-- The switch on the tag of a message with `ms` behind it.
unfoldable pub hand_over :
    ChannelMessage → List ChannelMessage → Contents → List SessionCall × List ChannelMessage
hand_over m ms (hint h) = (send_hint m.session_id h ∷ [], ms)
hand_over m ms (target_duration t) = (update_target_work_duration m.session_id t ∷ [], ms)
hand_over m ms (work_duration total cpu gpu start) =
    let (durations, rest) = durations_of m.session_id (m ∷ ms) in
    report_durations m.session_id durations rest ms
hand_over m ms (mode i e) = (set_mode m.session_id i e ∷ [], ms)
hand_over m ms invalid = ([], ms)

-- One turn of the loop over the messages; `alive` is whether `getSession` finds the session.
unfoldable pub turn :
    (ℕ → Bool) → ChannelMessage → List ChannelMessage → List SessionCall × List ChannelMessage
turn alive m ms = if not (alive m.session_id) then ([], ms) else hand_over m ms m.contents

-- The loop, on fuel; a group that is being destructed does not enter it.
unfoldable pub dispatch : (ℕ → Bool) → ℕ → List ChannelMessage → List SessionCall
dispatch alive zero ms = []
dispatch alive (suc n) [] = []
dispatch alive (suc n) (m ∷ ms) =
    let (calls, rest) = turn alive m ms in calls ++ dispatch alive n rest
