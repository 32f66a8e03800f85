-- ===== src/Perfmgr/PowerHintSession/Tests.antt =====
-- A session on concrete requests, with whole numbers for `double` and for `float`.
use hardware_voltage_interfa.Base.{
  ◌≤◌, arith, ℕ, zero, suc, ◌≡◌, refl, true, false, Option, none, some, List, [], ◌∷◌, ◌++◌,
}
use hardware_voltage_interfa.Base.Int.{
  max_ℤ, min_ℤ, abs_ℤ, to_i32, to_u32, ℤ, pos, negsuc, pos_part, ltb_ℤ, leb_ℤ, div_ℤ, ◌*ℤ◌, ◌+ℤ◌,
  ◌-ℤ◌,
}
use hardware_voltage_interfa.Perfmgr.SessionRecords.{
  Float, get_max_duration, get_avg_duration, add_reported_durations, report_one, prepare, make_room,
  remove_oldest, next_slot, pop_front_if, check_fps, cycle_missed, store_record, pop_not_greater,
  update_frame_buckets, is_low_frame_rate, get_latest_fps, new, reset_records,
}
use hardware_voltage_interfa.Perfmgr.GpuCapacity.{Singles, Report, calculate_capacity}
use hardware_voltage_interfa.Perfmgr.PowerHintSession.{
  Doubles, AdpfConfig, Host, PowerHintSession, surfaceflinger, hwui, default_process, Status,
  illegal_state, load_reset, Call,
}
use hardware_voltage_interfa.Perfmgr.PowerHintSession.Calls.{
  create, get_adpf_profile, pause, resume, update_target_work_duration, set_threads,
}
use hardware_voltage_interfa.Perfmgr.PowerHintSession.Hints.{send_hint}
use hardware_voltage_interfa.Base.Dict.{find, assign}
use hardware_voltage_interfa.Perfmgr.PowerHintSession.Pid.{
  pid_input, run_pid, convert_work_duration_to_boost_by_pid,
}
use hardware_voltage_interfa.Perfmgr.PowerHintSession.Windows.{IsPidOf, run_pid-IsPidOf}
use hardware_voltage_interfa.Perfmgr.PowerHintSession.Requests.{
  Request, pause_it, resume_it, set_target, report, hint, threads, perform, run,
}
use hardware_voltage_interfa.Perfmgr.PowerHintSession.Report.{report_actual_work_duration}
use hardware_voltage_interfa.Perfmgr.PowerHintSession.Refusals.{
  answer_of, IsAnswered, perform-IsAnswered,
}
use hardware_voltage_interfa.Perfmgr.PowerHintSession.Phases.{phase_after, phase_of, unborn, paused}
use hardware_voltage_interfa.Perfmgr.PowerHintSession.History.{history-IsInPhase}
use hardware_voltage_interfa.Perfmgr.PowerHintSession.Limits.{IsWithin, report-IsWithin}

abbrev quotient : ℤ → ℤ → ℤ
quotient a (pos zero) = pos 0
quotient a (pos (suc k)) = div_ℤ a (suc k)
quotient a (negsuc k) = pos 0

abbrev wholes : Float
wholes = record {
  Double = ℤ;
  of_int = λ z. z;
  mul = λ a b. a *ℤ b;
  div = quotient;
  lt = ltb_ℤ;
  le = leb_ℤ;
  one_point_four = pos 1;
}

abbrev whole_sums : Doubles ℤ
whole_sums = record {
  add = λ a b. a +ℤ b;
  sub = λ a b. a -ℤ b;
  to_int = λ z. z;
  to_uint = pos_part;
}

abbrev singles : Singles ℤ
singles = record {
  Single = ℤ;
  of_integer = λ z. z;
  to_integer = λ z. z;
  widen = λ z. z;
  narrow = λ z. z;
  add = λ a b. a +ℤ b;
  sub = λ a b. a -ℤ b;
  mul = λ a b. a *ℤ b;
  div = quotient;
  lt = ltb_ℤ;
}

abbrev config : AdpfConfig ℤ
config = record {
  pid_on = true;
  pid_po = pos 2;
  pid_pu = pos 1;
  pid_i = pos 1;
  pid_do = pos 1;
  pid_du = pos 1;
  pid_i_high_div_i = pos 400;
  pid_i_low_div_i = negsuc 99;
  sampling_window_p = 1;
  sampling_window_i = 0;
  sampling_window_d = 1;
  reporting_rate_limit_ns = pos 1000;
  target_time_factor = pos 1;
  stale_time_factor = pos 5;
  uclamp_min_init = 200;
  uclamp_min_load_up = 480;
  uclamp_min_load_reset = 300;
  uclamp_min_high = 480;
  uclamp_min_low = 2;
  heuristic_boost_on = some true;
  hboost_moderate_jank_threshold = 4;
  hboost_severe_jank_threshold = 11;
  hboost_off_max_avg_dur_ratio = pos 4;
  hboost_severe_jank_pid_pu = pos 1;
  hboost_uclamp_min_floor_range = (200, 400);
  hboost_uclamp_min_ceiling_range = (480, 800);
  jank_check_time_factor = pos 1;
  low_frame_rate_threshold = 25;
  max_records_num = 3;
  heuristic_rampup = some true;
  default_rampup_mult = 1;
  high_rampup_mult = 4;
  gpu_boost_on = some true;
  gpu_boost_capacity_max = some (pos 325);
  gpu_capacity_load_up_headroom = pos 100;
}

abbrev host : Host ℤ
host = record {
  now = λ n. pos 7;
  default_profile = config;
  is_hint_supported = λ h. true;
  all_sessions_timeout = true;
  game_mode = false;
  has_rampup_node = true;
  gpu_frequency = some (pos 1000);
}

abbrev took : ℕ → ℕ → Report
took at ns = record {
  work = record { time_stamp_nanos = pos at; duration_nanos = pos ns };
  cpu_duration_nanos = pos 4000000;
  gpu_duration_nanos = pos 5000000;
}

abbrev late : List Report
late = took 20000000 17000000 ∷ took 40000000 18000000 ∷ []

abbrev fresh : PowerHintSession ℤ
fresh =
    (create wholes whole_sums host (pos 1) 10 10001 (31 ∷ []) (pos 16000000) hwui default_process
      true).0

abbrev life : List (Host ℤ × Request ℤ)
life =
    (host, report late)
    ∷ (host, pause_it)
    ∷ (host, report late)
    ∷ (host, set_target (pos 8000000))
    ∷ (host, threads (32 ∷ []))
    ∷ (host, resume_it)
    ∷ (host, hint load_reset)
    ∷ (host, report late)
    ∷ (host, pause_it)
    ∷ []

abbrev session_of : Option (PowerHintSession ℤ × List Call) → PowerHintSession ℤ
session_of none = fresh
session_of (some (s, calls)) = s

abbrev calls_of : Option (PowerHintSession ℤ × List Call) → List Call
calls_of none = []
calls_of (some (s, calls)) = calls

abbrev without_status :
    Option (PowerHintSession ℤ × List Call × Status) → Option (PowerHintSession ℤ × List Call)
without_status none = none
without_status (some (s, calls, status)) = some (s, calls)

abbrev reported : Option (PowerHintSession ℤ × List Call)
reported = without_status (report_actual_work_duration wholes whole_sums singles host late fresh)

abbrev lived : Option (PowerHintSession ℤ × List Call)
lived = run wholes whole_sums singles life fresh

run_pid-IsPidOf_example :
    IsPidOf
      (pid_input config (pos 16000000) 2)
      late
      fresh.descriptor
      (run_pid config late fresh.descriptor)
unfolding create
run_pid-IsPidOf_example =
    run_pid-IsPidOf config (took 20000000 17000000) (took 40000000 18000000 ∷ []) fresh.descriptor

perform-IsAnswered_example :
    IsAnswered illegal_state fresh (perform wholes whole_sums singles host resume_it fresh)
unfolding answer_of create
perform-IsAnswered_example = perform-IsAnswered wholes whole_sums singles host resume_it fresh

report-IsWithin_example :
    IsWithin wholes whole_sums singles host config (session_of reported) (calls_of reported)
unfolding report_actual_work_duration create get_adpf_profile convert_work_duration_to_boost_by_pid
    get_max_duration get_avg_duration add_reported_durations report_one prepare make_room
    remove_oldest next_slot pop_front_if check_fps cycle_missed store_record pop_not_greater
    update_frame_buckets is_low_frame_rate new to_i32 to_u32 div_ℤ ◌+ℤ◌ ◌-ℤ◌ ◌*ℤ◌ max_ℤ min_ℤ abs_ℤ
    calculate_capacity
report-IsWithin_example =
    report-IsWithin wholes whole_sums singles host late fresh (session_of reported)
      (calls_of reported) refl refl

-- The first report of a session of the surface flinger divides by the interval of no start.
fps_fails :
    report_actual_work_duration wholes whole_sums singles host late
      (record fresh { sess_tag = surfaceflinger })
    ≡ none
unfolding report_actual_work_duration create get_adpf_profile convert_work_duration_to_boost_by_pid
    get_max_duration get_avg_duration add_reported_durations report_one prepare make_room
    remove_oldest next_slot pop_front_if check_fps cycle_missed store_record pop_not_greater
    update_frame_buckets is_low_frame_rate new to_i32 to_u32 div_ℤ ◌+ℤ◌ ◌-ℤ◌ ◌*ℤ◌ max_ℤ min_ℤ abs_ℤ
    calculate_capacity get_latest_fps
fps_fails = refl

history-IsInPhase_example :
    phase_after
      ((create wholes whole_sums host
          (pos 1)
          10
          10001
          (31 ∷ [])
          (pos 16000000)
          hwui
          default_process
          true).1
        ++ calls_of lived)
      unborn
    ≡ some paused
unfolding run create phase_of pause resume update_target_work_duration set_threads send_hint
    report_actual_work_duration find assign reset_records convert_work_duration_to_boost_by_pid
    get_max_duration get_avg_duration add_reported_durations report_one prepare make_room
    remove_oldest next_slot pop_front_if check_fps cycle_missed store_record pop_not_greater
    update_frame_buckets is_low_frame_rate new to_i32 to_u32 div_ℤ ◌+ℤ◌ ◌-ℤ◌ ◌*ℤ◌ max_ℤ min_ℤ abs_ℤ
    calculate_capacity
history-IsInPhase_example =
    history-IsInPhase wholes whole_sums singles host (pos 1) 10 10001 (31 ∷ []) (pos 16000000) hwui
      default_process true life (session_of lived) (calls_of lived) refl

fewer : to_u32 (pos 3) ≤ to_u32 (pos 12)
unfolding to_u32
fewer = omega arith
