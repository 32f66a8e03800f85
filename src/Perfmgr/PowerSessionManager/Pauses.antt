-- ===== src/Perfmgr/PowerSessionManager/Pauses.antt =====
-- power-libperfmgr/aidl/PowerSessionManager.cpp: the ramp-up boost, pausing and resuming sessions, what
-- is counted of frames, and the map of registered sessions.
use hardware_voltage_interfa.Base.{
  ℕ, ◌%◌, Bool, true, false, not, ◌&&◌, ◌||◌, Option, none, some, List, [], ◌∷◌, ◌++◌, ◌==◌,
  if◌then◌else◌,
}
use hardware_voltage_interfa.Base.Int.{ℤ, pos, ◌+ℤ◌}
use hardware_voltage_interfa.Base.Dict.{find, assign}
use hardware_voltage_interfa.Perfmgr.SessionRecords.{FrameTimingMetrics}
use hardware_voltage_interfa.Perfmgr.SessionMetrics.{
  SessionMetrics, ScenarioType, default_scenario, game_scenario, reset_metric, add_game_frames,
  add_app_frames, add_up_new_frames,
}
use hardware_voltage_interfa.Perfmgr.SessionTaskMap.{
  SessionValueEntry, get_session_ids, get_task_ids,
}
use hardware_voltage_interfa.Perfmgr.PowerHintSession.{
  SessionTag, SessionJankyLevel, light, moderate, severe, is_surfaceflinger,
}
use hardware_voltage_interfa.Perfmgr.PowerSessionManager.{change_entry, change_map, same_bool}
use hardware_voltage_interfa.Perfmgr.PowerSessionManager.Sessions.{
  HeurBoostStatistics, SessionExtras, Manager, Profile, Now, ManagerCall, update_task_rampup_mult,
  Outcome, address_of, change_extras, scenario_of, restart_metric, apply_votes,
}
use hardware_voltage_interfa.Perfmgr.PowerSessionManager.Lifetime.{unregister_session}

-- Whether another session of the list has the boost.
unfoldable pub other_boosted : ℕ → Manager → List ℕ → Bool
unfolding address_of
other_boosted id s [] = false
other_boosted id s (sess ∷ rest) =
    not (sess == id)
      && elim (address_of sess s) [ none ↦ false | some p ↦ (s.extras p).rampup_boost_active ]
    || other_boosted id s rest

unfoldable pub rampup_calls : ℕ → ℤ → Manager → List ℕ → List ManagerCall
unfolding other_boosted
rampup_calls id value s [] = []
rampup_calls id value s (tid ∷ tids) =
    let rest = rampup_calls id value s tids in
    if other_boosted id s (get_session_ids tid s.votes_and_tasks.session_task_map)
    then rest
    else update_task_rampup_mult tid value ∷ rest

unfoldable pub vote_rampup_boost : ℕ → Bool → ℤ → ℤ → Manager → List ManagerCall
unfolding rampup_calls
vote_rampup_boost id boosts low high s =
    rampup_calls id (if boosts then high else low) s
      (get_task_ids id s.votes_and_tasks.session_task_map)

-- The boost for a level of janks, of a session that is active or not.
unfoldable pub boost_for : Bool → SessionJankyLevel → Bool
boost_for active light = false
boost_for active moderate = active
boost_for active severe = active

abbrev pub set_boost : ℕ → Bool → Manager → Manager
set_boost p b s = change_extras p (λ (e : SessionExtras). record e { rampup_boost_active = b }) s

-- The methods from here on, with what findSession answers.
unfoldable pub update_rampup_boost_mode_at :
    ℕ → SessionJankyLevel → ℤ → ℤ → Manager → Option ℕ → Outcome
unfolding boost_for vote_rampup_boost change_extras
update_rampup_boost_mode_at id level low high s none = (s, [])
update_rampup_boost_mode_at id level low high s (some p) =
    let b = boost_for (s.votes_and_tasks.session_task_map.entries p).is_active level in
    let t = set_boost p b s in
    (
      t,
      if same_bool b (s.extras p).rampup_boost_active
          then []
          else vote_rampup_boost id b low high t,
    )

unfoldable pub update_rampup_boost_mode : ℕ → SessionJankyLevel → ℤ → ℤ → Manager → Outcome
unfolding address_of update_rampup_boost_mode_at
update_rampup_boost_mode id level low high s =
    update_rampup_boost_mode_at id level low high s (address_of id s)

abbrev pub set_active : ℕ → Bool → Manager → Manager
set_active id a s = record s {
  votes_and_tasks =
      change_map (change_entry id (λ (v : SessionValueEntry). record v { is_active = a }))
        s.votes_and_tasks;
}

-- The boost of a session that pauses is taken back.
unfoldable pub drop_boost : ℕ → ℕ → Bool → Manager → Outcome
unfolding vote_rampup_boost change_extras
drop_boost id p false s = (s, [])
drop_boost id p true s =
    let t = set_boost p false s in (t, vote_rampup_boost id false (pos 1) (pos 1) t)

unfoldable pub pause_at : Profile → Now → ℕ → Manager → Option ℕ → Outcome
unfolding drop_boost restart_metric apply_votes scenario_of change_entry
pause_at c now id s none = (s, [])
pause_at c now id s (some p) =
    let (s1, calls1) = drop_boost id p (s.extras p).rampup_boost_active (set_active id false s) in
    let (s2, calls2) =
      apply_votes c now id
        (restart_metric c now p (scenario_of s) (s.extras p).sess_frame_metrics s1) in
    if (s.votes_and_tasks.session_task_map.entries p).is_active
    then (s2, calls1 ++ calls2)
    else (s, [])

unfoldable pub pause : Profile → Now → ℕ → Manager → Outcome
unfolding address_of pause_at
pause c now id s = pause_at c now id s (address_of id s)

unfoldable pub reset_metrics_of : Now → ScenarioType → SessionExtras → SessionExtras
unfolding reset_metric
reset_metrics_of now scenario e = elim e.sess_frame_metrics [
  | none ↦ e
  | some x ↦ record e { sess_frame_metrics = some (reset_metric now.system now.thermal scenario x) }
]

unfoldable pub resume_at : Profile → Now → ℕ → Manager → Option ℕ → Outcome
unfolding reset_metrics_of apply_votes scenario_of change_extras change_entry
resume_at c now id s none = (s, [])
resume_at c now id s (some p) =
    let after =
      apply_votes c now id
        (change_extras p (reset_metrics_of now (scenario_of s)) (set_active id true s)) in
    if (s.votes_and_tasks.session_task_map.entries p).is_active then (s, []) else after

unfoldable pub resume : Profile → Now → ℕ → Manager → Outcome
unfolding address_of resume_at
resume c now id s = resume_at c now id s (address_of id s)

unfoldable pub same_scenario : ScenarioType → ScenarioType → Bool
same_scenario default_scenario default_scenario = true
same_scenario game_scenario game_scenario = true
same_scenario _ _ = false

unfoldable pub needs_new_metric : Now → SessionTag → ScenarioType → SessionMetrics → Bool
unfolding same_scenario
needs_new_metric now tag scenario x =
    is_surfaceflinger tag && not (same_scenario x.scenario_type scenario)
    || not (x.thermal_throt_stat == now.thermal)

unfoldable pub renew_metric : Profile → Now → ℕ → Manager → Option SessionMetrics → Manager × Bool
unfolding needs_new_metric restart_metric scenario_of
renew_metric c now p s none = (s, false)
renew_metric c now p s (some x) =
    let t = restart_metric c now p (scenario_of s) (some x) s in
    if needs_new_metric now (s.extras p).tag (scenario_of s) x then (t, true) else (s, false)

unfoldable pub update_collected_at : Profile → Now → Manager → Option ℕ → Manager × Bool
unfolding renew_metric
update_collected_at c now s none = (s, false)
update_collected_at c now s (some p) = renew_metric c now p s (s.extras p).sess_frame_metrics

unfoldable pub update_collected_session_metrics : Profile → Now → ℕ → Manager → Manager × Bool
unfolding address_of update_collected_at
update_collected_session_metrics c now id s = update_collected_at c now s (address_of id s)

unfoldable pub add_frames : FrameTimingMetrics → SessionMetrics → SessionMetrics
unfolding add_game_frames add_app_frames
add_frames f x = elim x.scenario_type [
  | game_scenario ↦ add_game_frames f.game_frame_metrics x
  | default_scenario ↦ add_app_frames f.frames_in_buckets x
]

-- `if (nullptr == sessValPtr) return;` before a change of the entry.
unfoldable pub change_extras_if : Option ℕ → (SessionExtras → SessionExtras) → Manager → Manager
unfolding change_extras
change_extras_if none f s = s
change_extras_if (some p) f s = change_extras p f s

unfoldable pub update_frame_metrics : ℕ → FrameTimingMetrics → Manager → Manager
unfolding address_of add_frames change_extras_if add_up_new_frames
update_frame_metrics id f s =
    change_extras_if (address_of id s)
      (λ (e : SessionExtras). record e {
        sess_frame_buckets = add_up_new_frames f.frames_in_buckets e.sess_frame_buckets;
        sess_frame_metrics = elim e.sess_frame_metrics [
          | none ↦ none
          | some x ↦ some (add_frames f x)
        ];
      })
      s

unfoldable pub add_hboost : SessionJankyLevel → ℤ → HeurBoostStatistics → HeurBoostStatistics
add_hboost light n h = record h { light_mode_frames = h.light_mode_frames +ℤ n }
add_hboost moderate n h = record h { moderate_mode_frames = h.moderate_mode_frames +ℤ n }
add_hboost severe n h = record h { severe_mode_frames = h.severe_mode_frames +ℤ n }

unfoldable pub update_hboost_statistics : ℕ → SessionJankyLevel → ℤ → Manager → Manager
unfolding address_of add_hboost change_extras_if
update_hboost_statistics id level n s =
    change_extras_if (address_of id s)
      (λ (e : SessionExtras). record e {
        h_boost_mode_dist = add_hboost level n e.h_boost_mode_dist;
      })
      s

-- The key is an `int`: the low 32 bits of the id.
unfoldable pub register_session : ℕ → ℕ → Manager → Manager
register_session session id s = record s {
  session_map = assign (id % 4294967296) session s.session_map;
}

-- `alive` tells for which objects a pointer is still held elsewhere.
unfoldable pub get_session : (ℕ → Bool) → ℕ → Manager → Manager × Option ℕ
unfolding unregister_session
get_session alive id s = elim (find (id % 4294967296) s.session_map) [
  | none ↦ (s, none)
  | some session ↦ if alive session then (s, some session) else (unregister_session id s, none)
]

unfoldable pub clear : Manager → Manager
clear s = record s { session_map = [] }
