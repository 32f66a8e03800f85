-- ===== src/Perfmgr/PowerHintSession/Report.antt =====
-- PowerHintSession.cpp: reportActualWorkDuration, with updateSessionJankState and updateHeuristicBoost.
use hardware_voltage_interfa.Base.{
  ℕ, ◌+◌, ◌-◌, ◌%◌, Bool, true, false, not, ◌&&◌, ◌||◌, Option, none, some, List, [], ◌∷◌, ◌++◌,
  map, ltb, if◌then◌else◌, length, get_last_or,
}
use hardware_voltage_interfa.Base.Int.{
  ℤ, pos, ◌+ℤ◌, leb_ℤ, max_ℤ, min_ℤ, ltb_ℤ, to_u32, to_i32, eq_ℤ,
}
use hardware_voltage_interfa.Perfmgr.Votes.{gpu_capacity}
use hardware_voltage_interfa.Perfmgr.SessionRecords.{
  Float, SessionRecords, FrameTimingMetrics, add_reported_durations, get_max_duration,
  get_avg_duration, get_latest_fps, is_low_frame_rate,
}
use hardware_voltage_interfa.Perfmgr.GpuCapacity.{Singles, Report, calculate_capacity}
use hardware_voltage_interfa.Perfmgr.PowerHintSession.{
  Doubles, AdpfConfig, Host, PowerHintSession, SessionJankyLevel, light, moderate, severe, Call,
  disable_boosts, vote_gpu, update_hboost_statistics, update_frame_metrics,
  update_collected_session_metrics, update_rampup_boost_mode, Outcome, ok, illegal_state,
  illegal_argument, is_on, is_chrome, is_surfaceflinger,
}
use hardware_voltage_interfa.Perfmgr.PowerHintSession.Calls.{
  get_adpf_profile, update_pid_control_variable, stale_ns, refuse,
}
use hardware_voltage_interfa.Perfmgr.PowerHintSession.Pid.{
  janky_factor, convert_work_duration_to_boost_by_pid,
}

abbrev pub is_light : SessionJankyLevel → Bool
is_light light = true
is_light moderate = false
is_light severe = false

abbrev pub no_frame_metrics : FrameTimingMetrics
no_frame_metrics = record {
  frames_in_buckets = record {
    total_num_of_frames = 0;
    num_of_frames_17to25ms = 0;
    num_of_frames_25to34ms = 0;
    num_of_frames_34to67ms = 0;
    num_of_frames_67to100ms = 0;
    num_of_frames_over_100ms = 0;
  };
  game_frame_metrics = record {
    frame_timing_ms = [];
    frame_timing_delta_ms = [];
    total_frame_time_ms = 0;
    num_of_frames = 0;
  };
}

-- Unsigned arithmetic of 32 bits.
abbrev pub sub_u32 : ℕ → ℕ → ℕ
sub_u32 a b = (a + (4294967296 - b % 4294967296)) % 4294967296

abbrev pub max_ℕ : ℕ → ℕ → ℕ
max_ℕ a b = if ltb a b then b else a

-- `next_min`
unfoldable pub next_min : ℕ × ℕ → ℤ → ℤ → ℤ
next_min limits before output =
    max_ℤ (to_i32 (pos limits.0)) (min_ℤ (to_i32 (pos limits.1)) (before +ℤ to_i32 output))

-- `std::clamp(v, Cycles(0), Cycles(top))`
unfoldable pub clamp_cycles : ℤ → ℤ → ℤ
clamp_cycles v top = if ltb_ℤ v (pos 0) then pos 0 else if ltb_ℤ top v then top else v

module _ (F : Float) (N : Doubles F.Double) where
  open F use {Double, of_int, mul, div, lt}
  open N use {add, to_uint}

  -- The number of janky frames is compared as unsigned, as the thresholds are.
  unfoldable pub update_session_jank_state :
      AdpfConfig Double → SessionJankyLevel → ℤ → Double → Bool → SessionJankyLevel
  update_session_jank_state c old num variance is_low_fps =
      if is_low_fps
      then light
      else if ltb (to_u32 num) c.hboost_moderate_jank_threshold
      then (if is_light old || lt variance c.hboost_off_max_avg_dur_ratio then light else moderate)
      else if ltb (to_u32 num) c.hboost_severe_jank_threshold
      then moderate
      else severe

  -- `updateHeuristicBoost` on the records. It traces the frame rate of a session of the surface flinger:
  -- `none` is the division by zero there.
  unfoldable pub update_heuristic_boost :
      AdpfConfig Double
      → SessionRecords Double
      → PowerHintSession Double
      → Option (PowerHintSession Double)
  unfolding update_session_jank_state
  update_heuristic_boost c r s = elim (get_max_duration r) [
    | none ↦ some s
    | some longest ↦ elim (get_avg_duration r) [
      | none ↦ some s
      | some average ↦
          let ratio = div (mul (of_int longest) (of_int (pos 1))) (of_int average) in
          let is_low_fps = is_low_frame_rate F r (pos c.low_frame_rate_threshold) in
          let num = r.num_of_missed_cycles in
          let t = record s {
            janky_level = update_session_jank_state c s.janky_level num ratio is_low_fps;
            janky_frame_num = to_u32 num;
          } in
          if leb_ℤ average (pos 0)
          then some s
          else if is_surfaceflinger s.sess_tag
          then elim (get_latest_fps r) [ none ↦ none | some fps ↦ some t ]
          else some t
    ]
  ]

  -- The block under `if (hboostEnabled)`.
  unfoldable pub add_to_records :
      Host Double
      → AdpfConfig Double
      → List Report
      → PowerHintSession Double
      → Option (PowerHintSession Double × List Call)
  unfolding update_heuristic_boost
  add_to_records host c ds s = elim s.session_records [
    | none ↦ none
    | some r ↦
        let game = is_surfaceflinger s.sess_tag && host.game_mode in
        let (q, metrics) =
          add_reported_durations F r no_frame_metrics (map (λ (d : Report). d.work) ds)
            s.descriptor.target_ns game in
        let ramps =
          is_on c.heuristic_rampup && (not (is_chrome s.proc_tag) && host.has_rampup_node) in
        elim (update_heuristic_boost c q (record s { session_records = some q })) [
          | none ↦ none
          | some t ↦ some (
            t,
            update_hboost_statistics s.janky_level (length ds)
                ∷ update_frame_metrics metrics
                ∷ update_collected_session_metrics
                ∷ (if ramps
                    then update_rampup_boost_mode t.janky_level c.default_rampup_mult
                        c.high_rampup_mult
                      ∷ []
                    else []),
          )
        ]
  ]

  unfoldable pub observe :
      Host Double
      → AdpfConfig Double
      → List Report
      → PowerHintSession Double
      → Option (PowerHintSession Double × List Call)
  unfolding add_to_records
  observe host c ds s =
      if is_on c.heuristic_boost_on then add_to_records host c ds s else some (s, [])

  -- `a + (b - a) * JankyFactor`, converted to `uint32_t`.
  abbrev pub between : Double → ℕ → ℕ → ℕ
  between factor a b = to_uint (add (of_int (pos a)) (mul (of_int (pos (sub_u32 b a))) factor))

  -- `uclampMinFloor` and `uclampMinCeiling`.
  unfoldable pub uclamp_min_limits : AdpfConfig Double → SessionJankyLevel → ℕ → ℕ × ℕ
  uclamp_min_limits c level num =
      let f = c.hboost_uclamp_min_floor_range in
      let g = c.hboost_uclamp_min_ceiling_range in
      let factor = janky_factor F N c num in
      if not (is_on c.heuristic_boost_on)
      then (c.uclamp_min_low, c.uclamp_min_high)
      else elim level [
        | light ↦ (c.uclamp_min_low, c.uclamp_min_high)
        | moderate ↦ (
          between factor (max_ℕ c.uclamp_min_low f.0) (max_ℕ c.uclamp_min_low f.1),
          between factor (max_ℕ c.uclamp_min_high g.0) (max_ℕ c.uclamp_min_high g.1),
        )
        | severe ↦ (max_ℕ c.uclamp_min_low f.1, max_ℕ c.uclamp_min_high g.1)
      ]

  module _ (G : Singles Double) where
    -- From the check of the GPU boost on; the clock reads `now 2`.
    unfoldable pub gpu_votes :
        Host Double → AdpfConfig Double → Report → PowerHintSession Double → List Call
    unfolding clamp_cycles
    gpu_votes host c last s = elim c.gpu_boost_capacity_max [
      | none ↦ []
      | some top ↦ elim host.gpu_frequency [
        | none ↦ []
        | some freq ↦
            let cycles = calculate_capacity F G N.sub last s.descriptor.target_ns freq in
            if not (is_on c.gpu_boost_on) || eq_ℤ last.gpu_duration_nanos (pos 0)
            then []
            else vote_gpu gpu_capacity (clamp_cycles cycles top) (host.now 2)
                (stale_ns F N c s.descriptor.target_ns)
              ∷ []
      ]
    ]

    -- From `next_min` on, given the controller's output; the CPU vote reads the clock as `now 1`.
    unfoldable pub apply_output :
        Host Double
        → AdpfConfig Double
        → Report
        → ℤ
        → PowerHintSession Double
        → PowerHintSession Double × List Call
    unfolding uclamp_min_limits next_min gpu_votes
    apply_output host c last output s =
        let limits = uclamp_min_limits c s.janky_level s.janky_frame_num in
        let v = next_min limits s.descriptor.pid_control_variable output in
        let (t, calls) = update_pid_control_variable F N host (host.now 1) v true s in
        (t, calls ++ gpu_votes host c last t)

    -- From the call of the PID controller on.
    unfoldable pub boost :
        Host Double
        → AdpfConfig Double
        → Report
        → List Report
        → PowerHintSession Double
        → Option (PowerHintSession Double × List Call)
    unfolding apply_output
    boost host c d ds s = elim (convert_work_duration_to_boost_by_pid F N c (d ∷ ds) s) [
      | none ↦ none
      | some (t, output) ↦ some (apply_output host c (get_last_or d ds) output t)
    ]

    -- The records and then the boost.
    unfoldable pub respond :
        Host Double
        → AdpfConfig Double
        → Report
        → List Report
        → PowerHintSession Double
        → Option (PowerHintSession Double × List Call)
    unfolding observe boost
    respond host c d ds s = elim (observe host c (d ∷ ds) s) [
      | none ↦ none
      | some (t, seen) ↦ elim (boost host c d ds t) [
        | none ↦ none
        | some (u, votes) ↦ some (u, seen ++ votes)
      ]
    ]

    -- `update_count` and `mLastUpdatedTime`; the clock reads `now 0`.
    unfoldable pub count_report : Host Double → PowerHintSession Double → PowerHintSession Double
    count_report host s = record s {
      descriptor = record s.descriptor {
        update_count = (s.descriptor.update_count + 1) % 18446744073709551616;
      };
      last_updated_time = host.now 0;
    }

    -- After the guards, with the first duration and the rest.
    unfoldable pub take_report :
        Host Double → Report → List Report → PowerHintSession Double → Option (Outcome Double)
    unfolding respond count_report
    take_report host d ds s =
        let c = get_adpf_profile host s in
        let t = count_report host s in
        let (high, calls) =
          update_pid_control_variable F N host (host.now 1) (to_i32 (pos c.uclamp_min_high)) true
            t in
        if not c.pid_on
        then some (high, disable_boosts ∷ calls, ok)
        else elim (respond host c d ds t) [
          | none ↦ none
          | some (u, more) ↦ some (u, disable_boosts ∷ more, ok)
        ]

    unfoldable pub report_actual_work_duration :
        Host Double → List Report → PowerHintSession Double → Option (Outcome Double)
    unfolding take_report
    report_actual_work_duration host ds s =
        if s.session_closed
        then refuse illegal_state s
        else if eq_ℤ s.descriptor.target_ns (pos 0)
        then refuse illegal_state s
        else elim ds [
          | [] ↦ refuse illegal_argument s
          | d ∷ rest ↦
              if not s.descriptor.is_active
              then refuse illegal_state s
              else take_report host d rest s
        ]
