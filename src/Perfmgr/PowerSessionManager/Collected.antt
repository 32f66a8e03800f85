-- ===== src/Perfmgr/PowerSessionManager/Collected.antt =====
-- power-libperfmgr/aidl/PowerSessionManager.cpp: the metrics that are collected for the upload, and the
-- map of registered sessions.
use mathlib.Core.Path.{subst}
use hardware_voltage_interfa.Base.{
  sym, ℕ, ◌%◌, ◌≤◌, ◌≡◌, refl, Bool, true, false, Option, none, some, List, [], ◌∷◌, ◌++◌, length,
  length-append, ◌==◌, if◌then◌else◌, arith,
}
use hardware_voltage_interfa.Base.Int.{ℤ, to_u64}
use hardware_voltage_interfa.Base.Dict.{find-assign}
use hardware_voltage_interfa.Perfmgr.SessionRecords.{FrameTimingMetrics}
use hardware_voltage_interfa.Perfmgr.SessionMetrics.{SessionMetrics, ScenarioType}
use hardware_voltage_interfa.Perfmgr.PowerHintSession.{SessionJankyLevel}
use hardware_voltage_interfa.Perfmgr.PowerSessionManager.{PowerSessionManager}
use hardware_voltage_interfa.Perfmgr.PowerSessionManager.Sessions.{
  Manager, Outcome, Profile, Now, scenario_of, SessionExtras, completed, collect, collect_to,
  restart_metric, force_active, apply_votes, replace_tasks, set_threads_from_power_session,
  update_hint_mode, change_extras,
}
use hardware_voltage_interfa.Perfmgr.PowerSessionManager.Lifetime.{
  Descriptor, add_power_session, end_metric, remove_power_session, unregister_session, remove_at,
}
use hardware_voltage_interfa.Perfmgr.PowerSessionManager.Pauses.{
  drop_boost, pause_at, resume_at, update_rampup_boost_mode_at, renew_metric, update_collected_at,
  change_extras_if, needs_new_metric, pause, resume, update_rampup_boost_mode,
  update_collected_session_metrics, update_frame_metrics, update_hboost_statistics,
  register_session, get_session, set_active,
}

-- What the manager is asked to do; `votes_changed` is any change of votes, events and links.
pub data Request : Type 0 where
  added : Option Descriptor → Bool → List ℕ → Request
  removed : ℕ → Request
  threads_set : ℕ → List ℕ → Request
  paused : ℕ → Request
  resumed : ℕ → Request
  boosted : ℕ → SessionJankyLevel → ℤ → ℤ → Request
  collected : ℕ → Request
  frames_counted : ℕ → FrameTimingMetrics → Request
  hboost_counted : ℕ → SessionJankyLevel → ℤ → Request
  hinted : Bool → Bool → Request
  registered : ℕ → ℕ → Request
  votes_changed : PowerSessionManager → Request

-- The state after a request; `none` where the code reads through a null pointer.
unfoldable pub step : Profile → Now → Request → Manager → Option Manager
step c now (added d enable tids) s = some (add_power_session c now d enable tids s).0
step c now (removed id) s = elim (remove_power_session c now id s) [
  | none ↦ none
  | some o ↦ some o.0
]
step c now (threads_set id tids) s = some (set_threads_from_power_session c now id tids s).0
step c now (paused id) s = some (pause c now id s).0
step c now (resumed id) s = some (resume c now id s).0
step c now (boosted id level low high) s = some (update_rampup_boost_mode id level low high s).0
step c now (collected id) s = some (update_collected_session_metrics c now id s).0
step c now (frames_counted id f) s = some (update_frame_metrics id f s)
step c now (hboost_counted id level n) s = some (update_hboost_statistics id level n s)
step c now (hinted is_game enabled) s = some (update_hint_mode is_game enabled s)
step c now (registered session id) s = some (register_session session id s)
step c now (votes_changed v) s = some (record s { votes_and_tasks = v })

-- The state after some requests, each with the readings of its time.
unfoldable pub run : Profile → List (Now × Request) → Manager → Option Manager
unfolding step
run c [] s = some s
run c ((now, r) ∷ rs) s = elim (step c now r s) [ none ↦ none | some t ↦ run c rs t ]

-- Metrics that are complete and have frames enough.
unfoldable pub AreComplete : List SessionMetrics → Type 0
AreComplete [] = Unit
AreComplete (x ∷ xs) =
    (x.metric_session_completed ≡ true) × (20 ≤ x.total_frame_number) × AreComplete xs

unfoldable pub IsCollected : Profile → List SessionMetrics → Type 0
unfolding AreComplete
IsCollected c xs = (length xs ≤ to_u64 c.max_num_of_cached_session_metrics) × AreComplete xs

append-AreComplete :
    (xs : List SessionMetrics) (x : SessionMetrics)
    → AreComplete xs
    → x.metric_session_completed ≡ true
    → 20 ≤ x.total_frame_number
    → AreComplete (xs ++ x ∷ [])
unfolding AreComplete
append-AreComplete [] x a h n = (h, n, tt)
append-AreComplete (y ∷ xs) x (h', n', a) h n = (h', n', append-AreComplete xs x a h n)

-- A manager whose metrics are in order, if there is one.
unfoldable pub HasCollected : Profile → Option Manager → Type 0
HasCollected c none = Unit
HasCollected c (some s) = IsCollected c s.collected_session_metrics

module _ (c : Profile) (now : Now) where
  collect-IsCollected :
      (x : SessionMetrics) (xs : List SessionMetrics)
      → IsCollected c xs
      → IsCollected c (collect c (completed now x) xs)
  unfolding IsCollected collect completed
  collect-IsCollected x xs h = ground (
    arith,
    length-append xs (completed now x ∷ []),
    append-AreComplete xs (completed now x) h.1 refl,
  )

  replace_tasks-collected :
      (id : ℕ) (tids : List ℕ) (s : Manager)
      → (replace_tasks id tids s).0.collected_session_metrics ≡ s.collected_session_metrics
  unfolding replace_tasks
  replace_tasks-collected id tids s = ground arith

  set_threads-collected :
      (id : ℕ) (tids : List ℕ) (s : Manager)
      → (set_threads_from_power_session c now id tids s).0.collected_session_metrics
        ≡ s.collected_session_metrics
  unfolding set_threads_from_power_session force_active
  set_threads-collected id tids s =
      replace_tasks-collected id tids (force_active c now id false s).0

  collect_to-IsCollected :
      (x : SessionMetrics) (s : Manager)
      → IsCollected c s.collected_session_metrics
      → IsCollected c (collect_to c (completed now x) s).collected_session_metrics
  unfolding collect_to
  collect_to-IsCollected x s h = collect-IsCollected x s.collected_session_metrics h

  end_metric-IsCollected :
      (x : Option SessionMetrics) (s : Manager)
      → IsCollected c s.collected_session_metrics
      → IsCollected c (end_metric c now x s).collected_session_metrics
  unfolding end_metric
  end_metric-IsCollected none s h = h
  end_metric-IsCollected (some x) s h = collect_to-IsCollected x s h

  restart_metric-IsCollected :
      (p : ℕ) (scenario : ScenarioType) (x : Option SessionMetrics) (s : Manager)
      → IsCollected c s.collected_session_metrics
      → IsCollected c (restart_metric c now p scenario x s).collected_session_metrics
  unfolding restart_metric change_extras
  restart_metric-IsCollected p scenario none s h = h
  restart_metric-IsCollected p scenario (some x) s h = collect_to-IsCollected x s h

  drop_boost-collected :
      (id p : ℕ) (b : Bool) (s : Manager)
      → (drop_boost id p b s).0.collected_session_metrics ≡ s.collected_session_metrics
  unfolding drop_boost change_extras
  drop_boost-collected id p false s = refl
  drop_boost-collected id p true s = refl

  remove_at-HasCollected :
      (id : ℕ) (o : Outcome) (a : Option ℕ)
      → IsCollected c o.0.collected_session_metrics
      → HasCollected c (elim (remove_at c now id o a) [ none ↦ none | some o ↦ some o.0 ])
  unfolding HasCollected remove_at unregister_session
  remove_at-HasCollected id o none h = tt
  remove_at-HasCollected id o (some p) h =
      subst (IsCollected c)
        (sym
          (replace_tasks-collected id [] (end_metric c now (o.0.extras p).sess_frame_metrics o.0)))
        (end_metric-IsCollected (o.0.extras p).sess_frame_metrics o.0 h)

  either-IsCollected :
      {B : Type 0} (b : Bool) (one other : Manager × B)
      → IsCollected c one.0.collected_session_metrics
      → IsCollected c other.0.collected_session_metrics
      → IsCollected c (if b then one else other).0.collected_session_metrics
  either-IsCollected true one other h k = h
  either-IsCollected false one other h k = k

  pause_at-IsCollected :
      (id : ℕ) (s : Manager) (a : Option ℕ)
      → IsCollected c s.collected_session_metrics
      → IsCollected c (pause_at c now id s a).0.collected_session_metrics
  unfolding pause_at apply_votes
  pause_at-IsCollected id s none h = h
  pause_at-IsCollected id s (some p) h =
      either-IsCollected (s.votes_and_tasks.session_task_map.entries p).is_active _ _
        (restart_metric-IsCollected p (scenario_of s) (s.extras p).sess_frame_metrics _ (
          subst (IsCollected c)
            (sym
              (drop_boost-collected id p (s.extras p).rampup_boost_active (set_active id false s)))
            h))
        h

  resume_at-IsCollected :
      (id : ℕ) (s : Manager) (a : Option ℕ)
      → IsCollected c s.collected_session_metrics
      → IsCollected c (resume_at c now id s a).0.collected_session_metrics
  unfolding resume_at apply_votes change_extras
  resume_at-IsCollected id s none h = h
  resume_at-IsCollected id s (some p) h =
      either-IsCollected (s.votes_and_tasks.session_task_map.entries p).is_active _ _ h h

  boost_at-IsCollected :
      (id : ℕ) (level : SessionJankyLevel) (low high : ℤ) (s : Manager) (a : Option ℕ)
      → IsCollected c s.collected_session_metrics
      → IsCollected c
          (update_rampup_boost_mode_at id level low high s a).0.collected_session_metrics
  unfolding update_rampup_boost_mode_at change_extras
  boost_at-IsCollected id level low high s none h = h
  boost_at-IsCollected id level low high s (some p) h = h

  renew_metric-IsCollected :
      (p : ℕ) (s : Manager) (x : Option SessionMetrics)
      → IsCollected c s.collected_session_metrics
      → IsCollected c (renew_metric c now p s x).0.collected_session_metrics
  unfolding renew_metric
  renew_metric-IsCollected p s none h = h
  renew_metric-IsCollected p s (some x) h =
      either-IsCollected (needs_new_metric now (s.extras p).tag (scenario_of s) x) _ _
        (restart_metric-IsCollected p (scenario_of s) (some x) s h) h

  update_collected_at-IsCollected :
      (s : Manager) (a : Option ℕ)
      → IsCollected c s.collected_session_metrics
      → IsCollected c (update_collected_at c now s a).0.collected_session_metrics
  unfolding update_collected_at
  update_collected_at-IsCollected s none h = h
  update_collected_at-IsCollected s (some p) h =
      renew_metric-IsCollected p s (s.extras p).sess_frame_metrics h

  change_extras_if-IsCollected :
      (a : Option ℕ) (f : SessionExtras → SessionExtras) (s : Manager)
      → IsCollected c s.collected_session_metrics
      → IsCollected c (change_extras_if a f s).collected_session_metrics
  unfolding change_extras_if change_extras
  change_extras_if-IsCollected none f s h = h
  change_extras_if-IsCollected (some p) f s h = h

  step-HasCollected :
      (r : Request) (s : Manager)
      → IsCollected c s.collected_session_metrics
      → HasCollected c (step c now r s)
  unfolding HasCollected step add_power_session register_session update_frame_metrics
      update_hboost_statistics pause resume update_rampup_boost_mode update_hint_mode
      update_collected_session_metrics remove_power_session force_active
  step-HasCollected (added none enable tids) s h = h
  step-HasCollected (added (some d) enable tids) s h =
      subst (IsCollected c) (sym (set_threads-collected d.session_id tids _)) h
  step-HasCollected (removed id) s h = remove_at-HasCollected id (force_active c now id false s) _ h
  step-HasCollected (threads_set id tids) s h =
      subst (IsCollected c) (sym (set_threads-collected id tids s)) h
  step-HasCollected (paused id) s h = pause_at-IsCollected id s _ h
  step-HasCollected (resumed id) s h = resume_at-IsCollected id s _ h
  step-HasCollected (boosted id level low high) s h = boost_at-IsCollected id level low high s _ h
  step-HasCollected (collected id) s h = update_collected_at-IsCollected s _ h
  step-HasCollected (frames_counted id f) s h = change_extras_if-IsCollected _ _ s h
  step-HasCollected (hboost_counted id level n) s h = change_extras_if-IsCollected _ _ s h
  step-HasCollected (hinted true enabled) s h = h
  step-HasCollected (hinted false enabled) s h = h
  step-HasCollected (registered session id) s h = h
  step-HasCollected (votes_changed v) s h = h

-- Whatever the manager is asked to do, in whatever order, it never keeps more metrics for the upload
-- than the profile allows, and each of them is complete and has twenty frames at least; a request
-- to remove a session that is not there may end the process instead.
pub run-IsCollected :
    (c : Profile) (rs : List (Now × Request)) (s : Manager)
    → IsCollected c s.collected_session_metrics
    → HasCollected c (run c rs s)
unfolding run HasCollected
run-IsCollected c [] s h = h
run-IsCollected c ((now, r) ∷ rs) s h =
    go (λ t. run-IsCollected c rs t) (step c now r s) (step-HasCollected c now r s h)
  where
    go :
        ((t : Manager) → IsCollected c t.collected_session_metrics → HasCollected c (run c rs t))
        → (o : Option Manager) → HasCollected c o
        → HasCollected c (elim o [ none ↦ none | some t ↦ run c rs t ])
    go later none k = tt
    go later (some t) k = later t k

-- A session that was registered last is found under every id with the same low 32 bits, as long as
-- some other owner holds it, and what is registered under the others stays as it was.
pub get_session-register_session :
    (alive : ℕ → Bool) (session id other : ℕ) (s : Manager)
    → (get_session alive other (register_session session id s)).1 ≡ (
        if id % 4294967296 == other % 4294967296
        then (if alive session then some session else none)
        else (get_session alive other s).1)
unfolding get_session register_session
get_session-register_session alive session id other s =
    ground (arith, find-assign (id % 4294967296) (other % 4294967296) session s.session_map)
