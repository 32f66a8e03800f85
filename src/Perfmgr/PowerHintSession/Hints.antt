-- ===== src/Perfmgr/PowerHintSession/Hints.antt =====
-- PowerHintSession.cpp: sendHint, with the hints that the hint manager supports.
use hardware_voltage_interfa.Base.{
  ℕ, Bool, true, false, not, ◌&&◌, ◌||◌, Option, none, some, List, [], ◌∷◌, ◌++◌, ltb,
  if◌then◌else◌,
}
use hardware_voltage_interfa.Base.Int.{ℤ, pos, ◌*ℤ◌, to_u32, to_i32, eq_ℤ}
use hardware_voltage_interfa.Base.Dict.{find, assign}
use hardware_voltage_interfa.Perfmgr.Votes.{
  cpu_load_up, cpu_load_reset, cpu_load_resume, gpu_load_up,
}
use hardware_voltage_interfa.Perfmgr.SessionRecords.{Float}
use hardware_voltage_interfa.Perfmgr.PowerHintSession.{
  Doubles, SessionHint, load_up, load_down, load_reset, load_resume, power_efficiency, gpu_up,
  gpu_down, gpu_reset, load_spike, gpu_spike, unknown_hint, HintName, name_of, app_first_frame,
  sys_first_frame, expensive_rendering, power_efficiency_mode, Host, Call, vote_cpu, vote_gpu,
  do_hint, PowerHintSession, ok, illegal_state, illegal_argument, Outcome, is_surfaceflinger,
  is_sysui, is_system_ui, hint_key,
}
use hardware_voltage_interfa.Perfmgr.PowerHintSession.Calls.{
  get_adpf_profile, is_timeout, update_pid_control_variable, set_mode, half_stale_ns, refuse,
  from_min,
}

-- `hintSupported`: the answer is asked for once.
unfoldable pub hint_supported :
    {D : Type 0} → Host D → HintName → PowerHintSession D → PowerHintSession D × Bool
hint_supported host h s = elim (find (hint_key h) s.supported_hints) [
  | some b ↦ (s, b)
  | none ↦ (
    record s { supported_hints = assign (hint_key h) (host.is_hint_supported h) s.supported_hints },
    host.is_hint_supported h,
  )
]

unfoldable pub try_to_send_power_hint :
    {D : Type 0}
    → Host D
    → HintName
    → Option ℕ
    → PowerHintSession D
    → PowerHintSession D × List Call
unfolding hint_supported
try_to_send_power_hint host h duration s =
    let (t, supported) = hint_supported host h s in
    if supported then (t, do_hint h duration ∷ []) else (t, [])

module _ (F : Float) (N : Doubles F.Double) where
  open F use {Double}

  -- The name that `CPU_LOAD_RESET` is sent under; the clock reads `t`.
  unfoldable pub reset_hint_name :
      Host Double → ℤ → PowerHintSession Double → PowerHintSession Double × HintName
  unfolding is_timeout hint_supported
  reset_hint_name host t s =
      let (s1, app) = hint_supported host app_first_frame s in
      let (s2, sys) = hint_supported host sys_first_frame s1 in
      if not (is_timeout F N host t s)
      then (s, name_of load_reset)
      else if not app
      then (s1, name_of load_reset)
      else if sys && host.all_sessions_timeout
      then (s2, sys_first_frame)
      else (s2, app_first_frame)

  -- The switch of `sendHint`: the session, the calls and the name of the hint, or none where the
  -- hint is invalid. The clock reads `now 0` in `isTimeout`, and then `now 1` and `now 2`.
  unfoldable pub apply_hint :
      Host Double
      → SessionHint
      → PowerHintSession Double
      → Option (PowerHintSession Double × List Call × HintName)
  unfolding get_adpf_profile update_pid_control_variable set_mode reset_hint_name
  apply_hint host load_up s =
      let c = get_adpf_profile host s in
      let (t, calls) =
        update_pid_control_variable F N host (host.now 1) s.descriptor.pid_control_variable true
          s in
      some (
        t,
        calls
            ++ vote_cpu cpu_load_up (from_min (to_i32 (pos c.uclamp_min_load_up))) (host.now 2)
                (s.descriptor.target_ns *ℤ pos 2)
              ∷ [],
        name_of load_up,
      )
  apply_hint host load_down s =
      let (t, calls) =
        update_pid_control_variable F N host (host.now 1)
          (to_i32 (pos (get_adpf_profile host s).uclamp_min_low)) true s in
      some (t, calls, name_of load_down)
  apply_hint host load_reset s =
      let c = get_adpf_profile host s in
      let (t, name) = reset_hint_name host (host.now 0) s in
      let v = to_u32 s.descriptor.pid_control_variable in
      let top = if ltb c.uclamp_min_init v then v else c.uclamp_min_init in
      let (u, calls) =
        update_pid_control_variable F N host (host.now 1) (to_i32 (pos top)) false t in
      some (
        u,
        calls
            ++ vote_cpu cpu_load_reset (from_min (to_i32 (pos c.uclamp_min_load_reset)))
                (host.now 2) (half_stale_ns F N c s.descriptor.target_ns)
              ∷ [],
        name,
      )
  apply_hint host load_resume s = some (
    s,
    vote_cpu cpu_load_resume (from_min s.descriptor.pid_control_variable) (host.now 2)
          (half_stale_ns F N (get_adpf_profile host s) s.descriptor.target_ns)
        ∷ [],
    name_of load_resume,
  )
  apply_hint host power_efficiency s = elim (set_mode host power_efficiency_mode true s) [
    | none ↦ none
    | some (t, calls, _) ↦ some (t, calls, name_of power_efficiency)
  ]
  apply_hint host gpu_up s = some (
    s,
    vote_gpu gpu_load_up (get_adpf_profile host s).gpu_capacity_load_up_headroom (host.now 2)
          s.descriptor.target_ns
        ∷ [],
    name_of gpu_up,
  )
  apply_hint host gpu_down s = some (s, [], name_of gpu_down)
  apply_hint host gpu_reset s = some (s, [], name_of gpu_reset)
  apply_hint host load_spike s = some (s, [], name_of load_spike)
  apply_hint host gpu_spike s = some (s, [], name_of gpu_spike)
  apply_hint host (unknown_hint n) s = none

  abbrev pub is_gpu_up : SessionHint → Bool
  is_gpu_up gpu_up = true
  is_gpu_up _ = false

  -- The hints that are sent after the lock is released.
  unfoldable pub send_names :
      Host Double
      → SessionHint
      → HintName
      → PowerHintSession Double
      → PowerHintSession Double × List Call
  unfolding try_to_send_power_hint
  send_names host hint name s =
      let (t, calls) = try_to_send_power_hint host name none s in
      let (u, more) = try_to_send_power_hint host expensive_rendering (some 175) t in
      if is_gpu_up hint
        && (is_surfaceflinger s.sess_tag || (is_sysui s.sess_tag || is_system_ui s.proc_tag))
      then (u, calls ++ more)
      else (t, calls)

  unfoldable pub send_hint :
      Host Double → SessionHint → PowerHintSession Double → Option (Outcome Double)
  unfolding apply_hint send_names
  send_hint host hint s =
      if s.session_closed
      then refuse illegal_state s
      else if eq_ℤ s.descriptor.target_ns (pos 0)
      then refuse illegal_state s
      else elim (apply_hint host hint s) [
        | none ↦ refuse illegal_argument s
        | some (t, calls, name) ↦
            let (u, sent) =
              send_names host hint name (record t { last_updated_time = host.now 3 }) in
            some (u, calls ++ sent, ok)
      ]
