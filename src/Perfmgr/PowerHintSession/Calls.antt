-- ===== src/Perfmgr/PowerHintSession/Calls.antt =====
-- PowerHintSession.cpp: the constructor, pause, resume, close, setMode, setThreads, setAdpfProfile and
-- updateTargetWorkDuration, with what they share.
use hardware_voltage_interfa.Base.{
  ℕ, Bool, true, false, not, ◌&&◌, Option, none, some, List, [], ◌∷◌, if◌then◌else◌,
}
use hardware_voltage_interfa.Base.Int.{
  ℤ, pos, ◌+ℤ◌, ◌-ℤ◌, ◌*ℤ◌, leb_ℤ, ltb_ℤ, max_ℤ, div_ℤ, abs_ℤ, to_i32, eq_ℤ,
}
use hardware_voltage_interfa.Perfmgr.Votes.{cpu_vote_default, cpu_load_reset, UclampRange}
use hardware_voltage_interfa.Perfmgr.SessionRecords.{Float, new, reset_records}
use hardware_voltage_interfa.Perfmgr.PowerHintSession.{
  Doubles, SessionTag, ProcessTag, default_process, system_ui, chrome, light, AdpfConfig,
  SessionMode, power_efficiency_mode, unknown_mode, Host, Call, add_power_session,
  remove_power_session, pause_session, resume_session, set_threads_from_power_session, vote_cpu,
  update_target, set_prefer_power_efficiency, register_process, unregister_process, register_tag,
  unregister_tag, PowerHintSession, Status, ok, illegal_state, illegal_argument, Outcome, is_on,
  is_system_ui,
}

unfoldable pub get_adpf_profile : {D : Type 0} → Host D → PowerHintSession D → AdpfConfig D
get_adpf_profile host s = elim s.adpf_profile [ none ↦ host.default_profile | some c ↦ c ]

unfoldable pub set_adpf_profile :
    {D : Type 0} → AdpfConfig D → PowerHintSession D → PowerHintSession D
set_adpf_profile c s = record s { adpf_profile = some c }

abbrev pub refuse : {D : Type 0} → Status → PowerHintSession D → Option (Outcome D)
refuse why s = some (s, [], why)

-- A range with the upper end kUclampMax.
abbrev pub from_min : ℤ → UclampRange
from_min v = record { uclamp_min = v; uclamp_max = pos 1024 }

abbrev with_active : {D : Type 0} → Bool → PowerHintSession D → PowerHintSession D
with_active a s = record s { descriptor = record s.descriptor { is_active = a } }

unfoldable pub pause : {D : Type 0} → PowerHintSession D → Option (Outcome D)
pause s =
    if s.session_closed
    then refuse illegal_state s
    else if not s.descriptor.is_active
    then refuse illegal_state s
    else some (with_active false s, pause_session ∷ set_threads_from_power_session [] ∷ [], ok)

unfoldable pub resume : {D : Type 0} → PowerHintSession D → Option (Outcome D)
resume s =
    if s.session_closed
    then refuse illegal_state s
    else if s.descriptor.is_active
    then refuse illegal_state s
    else some (
      with_active true s,
      set_threads_from_power_session s.descriptor.thread_ids ∷ resume_session ∷ [],
      ok,
    )

abbrev unregister : {D : Type 0} → PowerHintSession D → Call
unregister s = elim s.proc_tag [
  | default_process ↦ unregister_tag s.sess_tag
  | system_ui ↦ unregister_process s.proc_tag
  | chrome ↦ unregister_process s.proc_tag
]

abbrev register : SessionTag → ProcessTag → Call
register tag default_process = register_tag tag
register tag system_ui = register_process system_ui
register tag chrome = register_process chrome

unfoldable pub close : {D : Type 0} → PowerHintSession D → Option (Outcome D)
close s =
    if s.session_closed
    then refuse illegal_state s
    else some (
      record s { session_closed = true; descriptor = record s.descriptor { is_active = false } },
      remove_power_session ∷ unregister s ∷ [],
      ok,
    )

-- `setModeLocked`; the clock is read once.
unfoldable pub set_mode :
    {D : Type 0} → Host D → SessionMode → Bool → PowerHintSession D → Option (Outcome D)
set_mode host mode enabled s = if s.session_closed then refuse illegal_state s else elim mode [
  | unknown_mode ↦ refuse illegal_argument s
  | power_efficiency_mode ↦ some (
    record s { power_efficiency_on = enabled; last_updated_time = host.now 0 },
    set_prefer_power_efficiency enabled ∷ [],
    ok,
  )
]

-- `resetSessionHeuristicStates`
unfoldable pub reset_session_heuristic_states :
    {D : Type 0} → PowerHintSession D → Option (PowerHintSession D)
reset_session_heuristic_states s = elim s.session_records [
  | none ↦ none
  | some r ↦ some (record s {
    session_records = some (reset_records r);
    janky_level = light;
    janky_frame_num = 0;
  })
]

module _ (F : Float) (N : Doubles F.Double) where
  open F use {Double, of_int, mul, div}
  open N use {to_int}

  -- `duration_cast<nanoseconds>(mDescriptor->targetNs * mStaleTimeFactor)`, and half of it.
  abbrev pub stale_ns : AdpfConfig Double → ℤ → ℤ
  stale_ns c target = to_int (mul (of_int target) c.stale_time_factor)

  abbrev pub half_stale_ns : AdpfConfig Double → ℤ → ℤ
  half_stale_ns c target = to_int (div (mul (of_int target) c.stale_time_factor) (of_int (pos 2)))

  -- `isTimeout`, for the reading of the clock `t`.
  unfoldable pub is_timeout : Host Double → ℤ → PowerHintSession Double → Bool
  unfolding get_adpf_profile
  is_timeout host t s =
      leb_ℤ (s.last_updated_time +ℤ stale_ns (get_adpf_profile host s) s.descriptor.target_ns) t

  -- `updatePidControlVariable`, with the time of the vote.
  unfoldable pub update_pid_control_variable :
      Host Double → ℤ → ℤ → Bool → PowerHintSession Double → PowerHintSession Double × List Call
  unfolding get_adpf_profile
  update_pid_control_variable host t v update_vote s =
      let c = get_adpf_profile host s in
      (
        record s { descriptor = record s.descriptor { pid_control_variable = v } },
        if update_vote
            then vote_cpu cpu_vote_default (from_min v) t
                (max_ℤ (stale_ns c s.descriptor.target_ns) (c.reporting_rate_limit_ns *ℤ pos 2))
              ∷ []
            else [],
      )

  -- The constructor, told the id and whether metrics are collected; the clock is read three times.
  unfoldable pub create :
      Host Double
      → ℤ
      → ℕ
      → ℕ
      → List ℕ
      → ℤ
      → SessionTag
      → ProcessTag
      → Bool
      → PowerHintSession Double × List Call
  create host id tgid uid threads duration tag process metrics =
      let c = host.default_profile in
      (
        record {
          sess_tag = tag;
          proc_tag = process;
          descriptor = record {
            session_id = id;
            tgid = tgid;
            uid = uid;
            target_ns = duration;
            thread_ids = threads;
            pid_control_variable = pos 0;
            is_active = true;
            update_count = 0;
            integral_error = pos 0;
            previous_error = pos 0;
          };
          last_updated_time = host.now 0;
          session_closed = false;
          supported_hints = [];
          power_efficiency_on = false;
          adpf_profile = some c;
          session_records =
              if is_on c.heuristic_boost_on
              then some (new c.max_records_num c.jank_check_time_factor)
              else none;
          janky_level = light;
          janky_frame_num = 0;
        },
        register tag process
            ∷ add_power_session threads (not (is_system_ui process) && metrics)
            ∷ vote_cpu cpu_load_reset (from_min (to_i32 (pos c.uclamp_min_load_reset))) (host.now 1)
                (half_stale_ns c duration)
            ∷ vote_cpu cpu_vote_default (from_min (to_i32 (pos c.uclamp_min_init))) (host.now 2)
                duration
            ∷ [],
      )

  -- The target changed by more than 30 percent, while the boost is on.
  unfoldable pub is_new_pace : AdpfConfig Double → ℤ → ℤ → Bool
  is_new_pace c target last =
      not (eq_ℤ target last)
      && (is_on c.heuristic_boost_on && ltb_ℤ (div_ℤ last 100 *ℤ pos 30) (abs_ℤ (target -ℤ last)))

  unfoldable pub update_target_work_duration :
      Host Double → ℤ → PowerHintSession Double → Option (Outcome Double)
  unfolding get_adpf_profile reset_session_heuristic_states is_new_pace
  update_target_work_duration host asked s =
      let c = get_adpf_profile host s in
      let target = to_int (mul (of_int asked) c.target_time_factor) in
      if s.session_closed
      then refuse illegal_state s
      else if leb_ℤ asked (pos 0)
      then refuse illegal_argument s
      else elim (if is_new_pace c target s.descriptor.target_ns
          then reset_session_heuristic_states s
          else some s) [
            | none ↦ none
            | some t ↦ some (
              record t { descriptor = record t.descriptor { target_ns = target } },
              update_target cpu_vote_default target ∷ [],
              ok,
            )
          ]

  unfoldable pub set_threads :
      Host Double → List ℕ → PowerHintSession Double → Option (Outcome Double)
  unfolding get_adpf_profile update_pid_control_variable
  set_threads host [] s =
      if s.session_closed then refuse illegal_state s else refuse illegal_argument s
  set_threads host (x ∷ threads) s =
      if s.session_closed
      then refuse illegal_state s
      else let (t, calls) =
          update_pid_control_variable host (host.now 0)
            (to_i32 (pos (get_adpf_profile host s).uclamp_min_init)) true
            (record s { descriptor = record s.descriptor { thread_ids = x ∷ threads } }) in
        some (t, set_threads_from_power_session (x ∷ threads) ∷ calls, ok)
