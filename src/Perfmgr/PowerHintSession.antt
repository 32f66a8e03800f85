-- ===== src/Perfmgr/PowerHintSession.antt =====
-- power-libperfmgr/aidl/PowerHintSession.h and PowerHintSession.cpp, with AppHintDesc.h: a hint
-- session of a client. A method returns the new session, what it calls outside in order, and its
-- status; none is what C++ leaves undefined, a null session record or an integer division by zero.
-- `AdpfConfig`, `Host` and the operations on `double` are parameters, code of other repositories.
-- The optional fields of the profile that are read by `.value()` are taken to be there, and
-- signed sums are taken not to overflow. Calls for tracing are left out.
pub mod Pid
pub mod Loop
pub mod Windows
pub mod Calls
pub mod Hints
pub mod Report
pub mod Requests
pub mod Refusals
pub mod Phases
mod Reporting
pub mod History
pub mod Limits
pub mod Janks
pub mod Returns
mod Tests
use hardware_voltage_interfa.Base.{ℕ, ◌+◌, Bool, true, false, Option, none, some, List}
use hardware_voltage_interfa.Base.Int.{ℤ}
use hardware_voltage_interfa.Base.Dict.{Dict}
use hardware_voltage_interfa.Perfmgr.Votes.{AdpfVoteType, UclampRange}
use hardware_voltage_interfa.Perfmgr.SessionRecords.{SessionRecords, FrameTimingMetrics}

-- What the session uses of `double` beyond `Float`: sums, and the conversions to `int64_t` and
-- `uint32_t`.
pub record Doubles (D : Type 0) : Type 0 where
  pub add : D → D → D
  pub sub : D → D → D
  pub to_int : D → ℤ
  pub to_uint : D → ℕ

pub data SessionTag : Type 0 where
  surfaceflinger sysui hwui other_tag : SessionTag

pub data ProcessTag : Type 0 where
  default_process system_ui chrome : ProcessTag

pub data SessionJankyLevel : Type 0 where
  light moderate severe : SessionJankyLevel

-- What the session reads of its profile.
pub record AdpfConfig (D : Type 0) : Type 0 where
  pub pid_on : Bool
  pub pid_po : D
  pub pid_pu : D
  pub pid_i : D
  pub pid_do : D
  pub pid_du : D
  pub pid_i_high_div_i : ℤ
  pub pid_i_low_div_i : ℤ
  pub sampling_window_p : ℕ
  pub sampling_window_i : ℕ
  pub sampling_window_d : ℕ
  pub reporting_rate_limit_ns : ℤ
  pub target_time_factor : D
  pub stale_time_factor : D
  pub uclamp_min_init : ℕ
  pub uclamp_min_load_up : ℕ
  pub uclamp_min_load_reset : ℕ
  pub uclamp_min_high : ℕ
  pub uclamp_min_low : ℕ
  pub heuristic_boost_on : Option Bool
  pub hboost_moderate_jank_threshold : ℕ
  pub hboost_severe_jank_threshold : ℕ
  pub hboost_off_max_avg_dur_ratio : D
  pub hboost_severe_jank_pid_pu : D
  pub hboost_uclamp_min_floor_range : ℕ × ℕ
  pub hboost_uclamp_min_ceiling_range : ℕ × ℕ
  pub jank_check_time_factor : D
  pub low_frame_rate_threshold : ℕ
  pub max_records_num : ℕ
  pub heuristic_rampup : Option Bool
  pub default_rampup_mult : ℕ
  pub high_rampup_mult : ℕ
  pub gpu_boost_on : Option Bool
  pub gpu_boost_capacity_max : Option ℤ
  pub gpu_capacity_load_up_headroom : ℤ

-- Hints by name: that of a `SessionHint`, and the three that the code spells out.
pub data SessionHint : Type 0 where
  load_up load_down load_reset load_resume power_efficiency : SessionHint
  gpu_up gpu_down gpu_reset load_spike gpu_spike : SessionHint
  unknown_hint : ℕ → SessionHint

pub data HintName : Type 0 where
  name_of : SessionHint → HintName
  app_first_frame sys_first_frame expensive_rendering : HintName

pub data SessionMode : Type 0 where
  power_efficiency_mode unknown_mode : SessionMode

-- What a call learns from outside: the readings of the clock, each with a number in its method, the profile of the
-- session's tag, and the answers of the session manager and of the hint manager.
pub record Host (D : Type 0) : Type 0 where
  pub now : ℕ → ℤ
  pub default_profile : AdpfConfig D
  pub is_hint_supported : HintName → Bool
  pub all_sessions_timeout : Bool
  pub game_mode : Bool
  pub has_rampup_node : Bool
  pub gpu_frequency : Option ℤ

-- What the session calls; the calls of the session manager all name the session's own id.
pub data Call : Type 0 where
  add_power_session : List ℕ → Bool → Call
  remove_power_session pause_session resume_session disable_boosts : Call
  set_threads_from_power_session : List ℕ → Call
  vote_cpu : AdpfVoteType → UclampRange → ℤ → ℤ → Call
  vote_gpu : AdpfVoteType → ℤ → ℤ → ℤ → Call
  update_target : AdpfVoteType → ℤ → Call
  set_prefer_power_efficiency : Bool → Call
  update_hboost_statistics : SessionJankyLevel → ℕ → Call
  update_frame_metrics : FrameTimingMetrics → Call
  update_collected_session_metrics : Call
  update_rampup_boost_mode : SessionJankyLevel → ℕ → ℕ → Call
  do_hint : HintName → Option ℕ → Call
  register_process unregister_process : ProcessTag → Call
  register_tag unregister_tag : SessionTag → Call

pub record AppHintDesc : Type 0 where
  pub session_id : ℤ
  pub tgid : ℕ
  pub uid : ℕ
  pub target_ns : ℤ
  pub thread_ids : List ℕ
  pub pid_control_variable : ℤ
  pub is_active : Bool
  pub update_count : ℕ
  pub integral_error : ℤ
  pub previous_error : ℤ

-- Of `mModes`, only the entry of POWER_EFFICIENCY is ever written. `supported_hints` is keyed by
-- `hint_key`.
pub record PowerHintSession (D : Type 0) : Type 0 where
  pub sess_tag : SessionTag
  pub proc_tag : ProcessTag
  pub descriptor : AppHintDesc
  pub last_updated_time : ℤ
  pub session_closed : Bool
  pub supported_hints : Dict Bool
  pub power_efficiency_on : Bool
  pub adpf_profile : Option (AdpfConfig D)
  pub session_records : Option (SessionRecords D)
  pub janky_level : SessionJankyLevel
  pub janky_frame_num : ℕ

pub data Status : Type 0 where
  ok illegal_state illegal_argument : Status

abbrev pub Outcome : Type 0 → Type 0
Outcome D = PowerHintSession D × List Call × Status

abbrev pub is_surfaceflinger : SessionTag → Bool
is_surfaceflinger surfaceflinger = true
is_surfaceflinger sysui = false
is_surfaceflinger hwui = false
is_surfaceflinger other_tag = false

abbrev pub is_sysui : SessionTag → Bool
is_sysui surfaceflinger = false
is_sysui sysui = true
is_sysui hwui = false
is_sysui other_tag = false

abbrev pub is_system_ui : ProcessTag → Bool
is_system_ui default_process = false
is_system_ui system_ui = true
is_system_ui chrome = false

abbrev pub is_chrome : ProcessTag → Bool
is_chrome default_process = false
is_chrome system_ui = false
is_chrome chrome = true

abbrev hint_number : SessionHint → ℕ
hint_number load_up = 0
hint_number load_down = 1
hint_number load_reset = 2
hint_number load_resume = 3
hint_number power_efficiency = 4
hint_number gpu_up = 5
hint_number gpu_down = 6
hint_number gpu_reset = 7
hint_number load_spike = 8
hint_number gpu_spike = 9
hint_number (unknown_hint n) = 10 + n

-- Different names have different keys.
abbrev pub hint_key : HintName → ℕ
hint_key app_first_frame = 0
hint_key sys_first_frame = 1
hint_key expensive_rendering = 2
hint_key (name_of h) = 3 + hint_number h

-- `has_value() && value()`, and `value_or(false)`.
abbrev pub is_on : Option Bool → Bool
is_on none = false
is_on (some b) = b
