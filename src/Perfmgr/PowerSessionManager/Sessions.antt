-- ===== src/Perfmgr/PowerSessionManager/Sessions.antt =====
-- power-libperfmgr/aidl/PowerSessionManager.h and PowerSessionManager.cpp: sessions that come, go,
-- pause and resume, their metrics, ramp-up boosts and task profiles. `Manager` adds to
-- `PowerSessionManager` the rest of the class; `extras` are the fields of the entries that the map
-- does not read, under the same addresses. A `weak_ptr` is the address of its session.
use hardware_voltage_interfa.Base.{
  ℕ, Bool, true, false, ◌&&◌, Option, none, some, List, [], ◌∷◌, ◌++◌, map, length, ltb, leb,
  if◌then◌else◌,
}
use hardware_voltage_interfa.Base.Int.{ℤ, to_u64}
use hardware_voltage_interfa.Base.Dict.{Dict, find}
use hardware_voltage_interfa.Perfmgr.SessionRecords.{FrameBuckets}
use hardware_voltage_interfa.Perfmgr.SessionMetrics.{
  SessionMetrics, ScenarioType, default_scenario, game_scenario, reset_metric,
}
use hardware_voltage_interfa.Perfmgr.SessionTaskMap.{replace, store}
use hardware_voltage_interfa.Perfmgr.PowerHintSession.{
  SessionTag, surfaceflinger, hwui, ProcessTag, system_ui,
}
use hardware_voltage_interfa.Perfmgr.PowerSessionManager.{
  Settings, PowerSessionManager, Call, apply_cpu_and_gpu_votes, force_session_active,
}

-- The frames under each level of the heuristic boost.
pub record HeurBoostStatistics : Type 0 where
  pub light_mode_frames : ℤ
  pub moderate_mode_frames : ℤ
  pub severe_mode_frames : ℤ

pub record SessionExtras : Type 0 where
  pub tag : SessionTag
  pub proc_tag : ProcessTag
  pub sess_frame_buckets : FrameBuckets
  pub h_boost_mode_dist : HeurBoostStatistics
  pub rampup_boost_active : Bool
  pub sess_frame_metrics : Option SessionMetrics

pub record Manager : Type 0 where
  pub votes_and_tasks : PowerSessionManager
  pub extras : ℕ → SessionExtras
  pub collected_session_metrics : List SessionMetrics
  pub game_mode_enabled : Bool
  pub session_map : Dict ℕ

-- What the methods read of the profile, of AID_APP_START and of the build's flags.
pub record Profile : Type 0 where
  pub settings : Settings
  pub max_num_of_cached_session_metrics : ℤ
  pub aid_app_start : ℤ
  pub prefers_high_cap : Bool

-- The readings of one call: the two clocks, the thermal listener, and the tasks that are dead.
pub record Now : Type 0 where
  pub steady : ℤ
  pub system : ℤ
  pub thermal : ℕ
  pub dead : ℕ → Bool

-- The task profiles, by name.
pub data TaskProfile : Type 0 where
  sensitive_standard : TaskProfile
  sensitive_extreme : TaskProfile
  prefer_high_cap_set : TaskProfile
  qos_none : TaskProfile

pub data ManagerCall : Type 0 where
  apply_call : Call → ManagerCall
  set_task_profiles : ℕ → List TaskProfile → ManagerCall
  update_task_rampup_mult : ℕ → ℤ → ManagerCall

abbrev pub Outcome : Type 0
Outcome = Manager × List ManagerCall

-- The address of a session's entry.
unfoldable pub address_of : ℕ → Manager → Option ℕ
address_of id s = elim (find id s.votes_and_tasks.session_task_map.sessions) [
  | none ↦ none
  | some e ↦ some e.val
]

unfoldable pub change_extras : ℕ → (SessionExtras → SessionExtras) → Manager → Manager
change_extras p f s = record s { extras = store p (f (s.extras p)) s.extras }

unfoldable pub scenario_of : Manager → ScenarioType
scenario_of s = if s.game_mode_enabled then game_scenario else default_scenario

unfoldable pub completed : Now → SessionMetrics → SessionMetrics
completed now x = record x { metric_end_time = now.system; metric_session_completed = true }

-- A completed metric is kept if it has twenty frames and there is room.
unfoldable pub collect : Profile → SessionMetrics → List SessionMetrics → List SessionMetrics
collect c x xs =
    if leb 20 x.total_frame_number && ltb (length xs) (to_u64 c.max_num_of_cached_session_metrics)
    then xs ++ x ∷ []
    else xs

unfoldable pub collect_to : Profile → SessionMetrics → Manager → Manager
unfolding collect
collect_to c x s = record s { collected_session_metrics = collect c x s.collected_session_metrics }

-- The metric of a session ends, and another begins.
unfoldable pub restart_metric :
    Profile → Now → ℕ → ScenarioType → Option SessionMetrics → Manager → Manager
unfolding collect_to completed change_extras reset_metric
restart_metric c now p scenario none s = s
restart_metric c now p scenario (some x) s =
    change_extras p
      (λ (e : SessionExtras). record e {
        sess_frame_metrics = some (reset_metric now.system now.thermal scenario (completed now x));
      })
      (collect_to c (completed now x) s)

unfoldable pub apply_votes : Profile → Now → ℕ → Manager → Outcome
unfolding apply_cpu_and_gpu_votes
apply_votes c now id s =
    let (m, calls) = apply_cpu_and_gpu_votes c.settings now.dead id now.steady s.votes_and_tasks in
    (record s { votes_and_tasks = m }, map apply_call calls)

unfoldable pub force_active : Profile → Now → ℕ → Bool → Manager → Outcome
unfolding force_session_active
force_active c now id a s =
    let (m, calls) = force_session_active c.settings now.dead now.steady id a s.votes_and_tasks in
    (record s { votes_and_tasks = m }, map apply_call calls)

-- `updateHintMode`, of the mode by name: its state, without the profile that it may choose.
unfoldable pub update_hint_mode : Bool → Bool → Manager → Manager
update_hint_mode is_game enabled s = if is_game then record s { game_mode_enabled = enabled } else s

unfoldable pub get_session_task_profiles : Profile → ℕ → Bool → Manager → List TaskProfile
unfolding address_of
get_session_task_profiles c id false s = qos_none ∷ []
get_session_task_profiles c id true s = elim (address_of id s) [
  | none ↦ sensitive_standard ∷ []
  | some p ↦ elim (s.extras p).proc_tag [
    | system_ui ↦ sensitive_extreme ∷ []
    | _ ↦ elim (s.extras p).tag [
      | surfaceflinger ↦
          if c.prefers_high_cap
          then sensitive_extreme ∷ prefer_high_cap_set ∷ []
          else sensitive_extreme ∷ []
      | hwui ↦ sensitive_extreme ∷ []
      | _ ↦ sensitive_standard ∷ []
    ]
  ]
]

unfoldable pub profile_calls : List TaskProfile → List ℕ → List ManagerCall
profile_calls ps tids = map (λ tid. set_task_profiles tid ps) tids

-- `mSessionTaskMap.replace`: the entry is copied to a new address, its fields with it.
unfoldable pub replace_tasks : ℕ → List ℕ → Manager → Manager × List ℕ × List ℕ
unfolding replace
replace_tasks id tids s =
    let m = s.votes_and_tasks.session_task_map in
    elim (replace id tids m) [
      | none ↦ (s, [], [])
      | some (n, added, removed) ↦ elim (find id m.sessions) [
        | none ↦ (s, [], [])
        | some e ↦ (
          record s {
            votes_and_tasks = record s.votes_and_tasks { session_task_map = n };
            extras = store m.next (s.extras e.val) s.extras;
          },
          added,
          removed,
        )
      ]
    ]

unfoldable pub set_threads_from_power_session : Profile → Now → ℕ → List ℕ → Manager → Outcome
unfolding force_active replace_tasks profile_calls
set_threads_from_power_session c now id tids s =
    let (s1, calls1) = force_active c now id false s in
    let (s2, added, removed) = replace_tasks id tids s1 in
    let (s3, calls3) = force_active c now id true s2 in
    (
      s3,
      calls1
          ++ profile_calls (get_session_task_profiles c id true s2) added
          ++ profile_calls (get_session_task_profiles c id false s2) removed
          ++ calls3,
    )
