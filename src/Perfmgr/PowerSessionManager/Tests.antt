-- ===== src/Perfmgr/PowerSessionManager/Tests.antt =====
-- The manager with two sessions that share a task.
use hardware_voltage_interfa.Base.{
  ℕ, ◌≡◌, refl, ◌==◌, Bool, true, false, none, some, List, [], ◌∷◌, arith,
}
use hardware_voltage_interfa.Base.Int.{ℤ, pos, ◌+ℤ◌}
use hardware_voltage_interfa.Base.Dict.{find, contains}
use hardware_voltage_interfa.Perfmgr.Votes.{no_votes, is_gpu_vote, vote_is_active, timing_of}
use hardware_voltage_interfa.Perfmgr.SessionTaskMap.{
  SessionTaskMap, SessionValueEntry, ValEntry, get_task_ids, find_session,
}
use hardware_voltage_interfa.Perfmgr.PowerSessionManager.{
  Settings, PowerSessionManager, EventSessionTimeout, apply_uclamp, vote_set_cpu, vote_set_gpu,
}
use hardware_voltage_interfa.Perfmgr.PowerSessionManager.Active.{LastsTo, IsActive, IsSound}
use hardware_voltage_interfa.Perfmgr.PowerSessionManager.Watch.{IsWatched}
use hardware_voltage_interfa.Perfmgr.PowerSessionManager.Timeouts.{
  started, voted_cpu, voted_gpu, IsReachable-IsWatched,
}
use hardware_voltage_interfa.Perfmgr.PowerSessionManager.Ranges.{AreFor, alive, apply_uclamp-AreFor}
use hardware_voltage_interfa.Base.{◌↔◌, ◌%◌, if◌then◌else◌}
use hardware_voltage_interfa.Perfmgr.SessionMetrics.{
  SessionMetrics, default_scenario, FrameTimelineType,
}
use hardware_voltage_interfa.Perfmgr.PowerHintSession.{surfaceflinger, default_process}
use hardware_voltage_interfa.Perfmgr.PowerSessionManager.Sessions.{
  Manager, Profile, Now, SessionExtras, address_of,
}
use hardware_voltage_interfa.Perfmgr.PowerSessionManager.Lifetime.{
  Descriptor, no_frames, remove_power_session,
}
use hardware_voltage_interfa.Perfmgr.PowerSessionManager.Pauses.{get_session, register_session}
use hardware_voltage_interfa.Perfmgr.PowerSessionManager.Collected.{
  added, removed, paused, resumed, run, IsCollected, AreComplete, HasCollected, run-IsCollected,
  get_session-register_session,
}
use hardware_voltage_interfa.Perfmgr.PowerSessionManager.Removal.{remove_power_session_fails}

abbrev settings : Settings
settings = record {
  uclamp_min_on = true;
  efficiency = none;
  gpu_boost_on = some true;
  has_gpu_node = true;
}

abbrev session : ℕ → SessionValueEntry
session p = record {
  session_id = p;
  id_string = [];
  is_active = true;
  is_app_session = true;
  votes = p;
  is_power_efficient = false;
}

abbrev linked : List ℕ → ℕ → ValEntry
linked tasks p = record { val = p; linked_tasks = tasks }

abbrev two_sessions : SessionTaskMap
two_sessions = record {
  sessions = (7, linked (10 ∷ 11 ∷ []) 0) ∷ (8, linked (11 ∷ []) 1) ∷ [];
  tasks = (10, 0 ∷ []) ∷ (11, 0 ∷ 1 ∷ []) ∷ [];
  entries = session;
  votes = λ p. no_votes;
  next = 2;
}

abbrev quiet : PowerSessionManager
quiet = record { session_task_map = two_sessions; timeouts = [] }

abbrev is_11 : ℕ → Bool
is_11 tid = tid == 11

two_sessions-IsSound : IsSound two_sessions
unfolding find contains
two_sessions-IsSound = record {
  apart = λ i j e f fi fj same. ground arith;
  below = λ i e fi. ground arith;
  distinct = (refl, (refl, tt));
}

nothing-IsActive : (id k : ℕ) (t : ℤ) → ¬ IsActive id k t two_sessions
unfolding IsActive LastsTo vote_is_active timing_of find
nothing-IsActive id k t (e, found, on) = ground arith

-- Every vote keeps its end or ends later.
abbrev all_timely : ℕ → ℕ → Bool
all_timely id k = true

-- The default vote of session 7 from 5 to 15 wakes the worker at 15.
abbrev event : EventSessionTimeout
event = record { time_stamp = pos 5; session_id = 7; vote_id = 0 }

waits_at_15 :
    (vote_set_cpu settings is_11 7 0 (pos 100) (pos 600) (pos 5) (pos 10) quiet).0.timeouts
    ≡ (event, pos 15) ∷ []
unfolding vote_set_cpu find_session find vote_is_active timing_of is_gpu_vote ◌+ℤ◌
waits_at_15 = refl

-- Session 8 asks for GPU capacity after that.
IsReachable-IsWatched_example :
    IsWatched all_timely
      (vote_set_gpu settings 8 5
        (pos 30)
        (pos 6)
        (pos 10)
        (vote_set_cpu settings is_11 7 0 (pos 100) (pos 600) (pos 5) (pos 10) quiet).0).0
IsReachable-IsWatched_example =
    IsReachable-IsWatched all_timely
      (vote_set_gpu settings 8 5 (pos 30) (pos 6) (pos 10)
        (vote_set_cpu settings is_11 7 0 (pos 100) (pos 600) (pos 5) (pos 10) quiet).0).0
      (voted_gpu settings 8 5 (pos 30) (pos 6) (pos 10) (
        voted_cpu settings is_11 7 0 (pos 100) (pos 600) (pos 5) (pos 10)
          (started two_sessions-IsSound nothing-IsActive)))

apply_uclamp-AreFor_example :
    AreFor (10 ∷ 11 ∷ []) (apply_uclamp settings is_11 7 (pos 6) two_sessions).1
    × (get_task_ids 7 (apply_uclamp settings is_11 7 (pos 6) two_sessions).0 ≡ 10 ∷ [])
unfolding find get_task_ids alive
apply_uclamp-AreFor_example =
    apply_uclamp-AreFor settings is_11 7 (pos 6) two_sessions (linked (10 ∷ 11 ∷ []) 0) refl refl

-- A metric of thirty frames for every session, and room for two.
abbrev measured : SessionMetrics
measured = record {
  uid = none;
  scenario_type = default_scenario;
  frame_timeline_type = FrameTimelineType.surfaceflinger;
  metric_start_time = pos 0;
  metric_end_time = pos 0;
  metric_session_completed = false;
  thermal_throt_stat = 0;
  total_frame_number = 30;
  app_frame_metrics = none;
  game_frame_metrics = none;
}

abbrev extras : ℕ → SessionExtras
extras p = record {
  tag = surfaceflinger;
  proc_tag = default_process;
  sess_frame_buckets = no_frames;
  h_boost_mode_dist = record {
    light_mode_frames = pos 0;
    moderate_mode_frames = pos 0;
    severe_mode_frames = pos 0;
  };
  rampup_boost_active = true;
  sess_frame_metrics = some measured;
}

abbrev manager : Manager
manager = record {
  votes_and_tasks = quiet;
  extras = extras;
  collected_session_metrics = [];
  game_mode_enabled = false;
  session_map = [];
}

abbrev profile : Profile
profile = record {
  settings = settings;
  max_num_of_cached_session_metrics = pos 2;
  aid_app_start = pos 10000;
  prefers_high_cap = true;
}

abbrev now : Now
now = record { steady = pos 50; system = pos 1000; thermal = 0; dead = is_11 }

abbrev newcomer : Descriptor
newcomer = record {
  session_id = 9;
  uid = pos 10042;
  id_string = [];
  is_active = true;
  tag = surfaceflinger;
  proc_tag = default_process;
  target_ns = pos 16000000;
}

run-IsCollected_example : HasCollected profile (
    run profile
      ((now, paused 7)
        ∷ (now, added (some newcomer) true (10 ∷ []))
        ∷ (now, removed 8)
        ∷ (now, resumed 7)
        ∷ [])
      manager)
unfolding IsCollected AreComplete
run-IsCollected_example =
    run-IsCollected profile
      ((now, paused 7)
        ∷ (now, added (some newcomer) true (10 ∷ []))
        ∷ (now, removed 8)
        ∷ (now, resumed 7)
        ∷ [])
      manager (omega arith, tt)

remove_power_session_fails_example :
    (remove_power_session profile now 3 manager ≡ none) ↔ (address_of 3 manager ≡ none)
remove_power_session_fails_example = remove_power_session_fails profile now 3 manager

get_session-register_session_example :
    (get_session (λ q. true) 4294967301 (register_session 77 5 manager)).1 ≡ (
      if 5 % 4294967296 == 4294967301 % 4294967296
      then some 77
      else (get_session (λ q. true) 4294967301 manager).1)
get_session-register_session_example =
    get_session-register_session (λ q. true) 77 5 4294967301 manager
