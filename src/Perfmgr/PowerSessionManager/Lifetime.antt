-- ===== src/Perfmgr/PowerSessionManager/Lifetime.antt =====
-- power-libperfmgr/aidl/PowerSessionManager.cpp: adding and removing sessions.
use hardware_voltage_interfa.Base.{
  ℕ, ◌%◌, Bool, false, Option, none, some, List, [], ◌++◌, if◌then◌else◌,
}
use hardware_voltage_interfa.Base.Int.{ℤ, pos, leb_ℤ}
use hardware_voltage_interfa.Base.Dict.{erase}
use hardware_voltage_interfa.Perfmgr.Votes.{
  default_range, vote_id, cpu_vote_default, no_votes, add_cpu,
}
use hardware_voltage_interfa.Perfmgr.SessionRecords.{FrameBuckets}
use hardware_voltage_interfa.Perfmgr.SessionMetrics.{
  SessionMetrics, default_scenario, FrameTimelineType,
}
use hardware_voltage_interfa.Perfmgr.SessionTaskMap.{SessionTaskMap, add, remove, store}
use hardware_voltage_interfa.Perfmgr.PowerHintSession.{SessionTag, ProcessTag, is_surfaceflinger}
use hardware_voltage_interfa.Perfmgr.PowerSessionManager.{change_map}
use hardware_voltage_interfa.Perfmgr.PowerSessionManager.Sessions.{
  SessionExtras, Manager, Profile, Now, Outcome, address_of, scenario_of, completed, collect_to,
  force_active, get_session_task_profiles, profile_calls, replace_tasks,
  set_threads_from_power_session,
}

-- What addPowerSession reads of the descriptor.
pub record Descriptor : Type 0 where
  pub session_id : ℕ
  pub uid : ℤ
  pub id_string : List ℕ
  pub is_active : Bool
  pub tag : SessionTag
  pub proc_tag : ProcessTag
  pub target_ns : ℤ

unfoldable pub first_metric : Now → Descriptor → Manager → SessionMetrics
unfolding scenario_of
first_metric now d s = record {
  uid = some d.uid;
  scenario_type = if is_surfaceflinger d.tag then scenario_of s else default_scenario;
  frame_timeline_type =
      if is_surfaceflinger d.tag then FrameTimelineType.surfaceflinger else FrameTimelineType.app;
  metric_start_time = now.system;
  metric_end_time = pos 0;
  metric_session_completed = false;
  thermal_throt_stat = now.thermal;
  total_frame_number = 0;
  app_frame_metrics = none;
  game_frame_metrics = none;
}

abbrev pub no_frames : FrameBuckets
no_frames = record {
  total_num_of_frames = 0;
  num_of_frames_17to25ms = 0;
  num_of_frames_25to34ms = 0;
  num_of_frames_34to67ms = 0;
  num_of_frames_67to100ms = 0;
  num_of_frames_over_100ms = 0;
}

unfoldable pub first_extras : Now → Descriptor → Bool → Manager → SessionExtras
unfolding first_metric
first_extras now d enable_metrics s = record {
  tag = d.tag;
  proc_tag = d.proc_tag;
  sess_frame_buckets = no_frames;
  h_boost_mode_dist = record {
    light_mode_frames = pos 0;
    moderate_mode_frames = pos 0;
    severe_mode_frames = pos 0;
  };
  rampup_boost_active = false;
  sess_frame_metrics = if enable_metrics then some (first_metric now d s) else none;
}

-- `mSessionTaskMap.add`, with votes of its own.
unfoldable pub add_entry : Profile → Now → Descriptor → SessionTaskMap → SessionTaskMap
unfolding add add_cpu
add_entry c now d m =
    (add d.session_id
      (record {
        session_id = d.session_id;
        id_string = d.id_string;
        is_active = d.is_active;
        is_app_session = leb_ℤ c.aid_app_start d.uid;
        votes = m.next;
        is_power_efficient = false;
      })
      []
      (record m {
        votes =
            store m.next
              (add_cpu (vote_id cpu_vote_default)
                (record {
                  timing = record {
                    active = false;
                    start_time = now.steady;
                    duration_ns = d.target_ns;
                  };
                  uclamp_range = default_range;
                })
                no_votes)
              m.votes;
      })).0

-- A descriptor that is null changes nothing.
unfoldable pub add_power_session :
    Profile → Now → Option Descriptor → Bool → List ℕ → Manager → Outcome
unfolding add_entry first_extras set_threads_from_power_session
add_power_session c now none enable_metrics tids s = (s, [])
add_power_session c now (some d) enable_metrics tids s =
    let m = s.votes_and_tasks.session_task_map in
    set_threads_from_power_session c now d.session_id tids (record s {
      votes_and_tasks = change_map (add_entry c now d) s.votes_and_tasks;
      extras = store m.next (first_extras now d enable_metrics s) s.extras;
    })

-- The metric of a session that ends.
unfoldable pub end_metric : Profile → Now → Option SessionMetrics → Manager → Manager
unfolding collect_to completed
end_metric c now none s = s
end_metric c now (some x) s = collect_to c (completed now x) s

unfoldable pub unregister_session : ℕ → Manager → Manager
unregister_session id s = record s { session_map = erase (id % 4294967296) s.session_map }

-- The rest of removePowerSession once the session is no longer active, with what findSession answers.
-- The code reads through that pointer without a test: `none` where it is null.
unfoldable pub remove_at : Profile → Now → ℕ → Outcome → Option ℕ → Option Outcome
unfolding end_metric replace_tasks profile_calls unregister_session get_session_task_profiles
remove_at c now id (s1, calls1) none = none
remove_at c now id (s1, calls1) (some p) =
    let (s2, added, removed) =
      replace_tasks id [] (end_metric c now (s1.extras p).sess_frame_metrics s1) in
    some (
      unregister_session id
          (record s2 { votes_and_tasks = change_map (λ m. (remove id m).0) s2.votes_and_tasks }),
      calls1 ++ profile_calls (get_session_task_profiles c id false s1) removed,
    )

unfoldable pub remove_power_session : Profile → Now → ℕ → Manager → Option Outcome
unfolding force_active address_of remove_at
remove_power_session c now id s =
    let inactive = force_active c now id false s in
    remove_at c now id inactive (address_of id inactive.0)
