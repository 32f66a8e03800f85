-- ===== src/Perfmgr/PowerSessionManager/Managed.antt =====
-- power-libperfmgr/aidl/PowerSessionManager.cpp: the votes of the sessions as sessions come and go, pause
-- and resume.
use mathlib.Core.Path.{subst}
use mathlib.Core.Option.{some_inj}
use hardware_voltage_interfa.Base.{
  if◌then◌else◌, ℕ, ◌≡◌, inl, inr, refl, ap, Bool, true, false, Option, none, some, List, [], arith,
  Option-cases,
}
use hardware_voltage_interfa.Base.Dict.{find}
use hardware_voltage_interfa.Perfmgr.SessionMetrics.{SessionMetrics, ScenarioType}
use hardware_voltage_interfa.Perfmgr.SessionTaskMap.{SessionValueEntry, replace, remove}
use hardware_voltage_interfa.Perfmgr.PowerSessionManager.{change_map}
use hardware_voltage_interfa.Perfmgr.PowerSessionManager.Active.{IsSound}
use hardware_voltage_interfa.Perfmgr.PowerSessionManager.Kept.{remove-KeepsVotes}
use hardware_voltage_interfa.Perfmgr.PowerSessionManager.Threads.{
  Keeps, Keeps-refl, Keeps-trans, Keeps-IsSound, force_session_active-Keeps, replaced-KeepsVotes,
  apply-Keeps, change_entry-Keeps,
}
use hardware_voltage_interfa.Perfmgr.PowerSessionManager.Sessions.{
  Profile, Now, Manager, Outcome, ManagerCall, address_of, force_active, apply_votes, replace_tasks,
  restart_metric, SessionExtras, change_extras, collect_to, scenario_of,
  set_threads_from_power_session,
}
use hardware_voltage_interfa.Perfmgr.PowerSessionManager.Lifetime.{
  end_metric, remove_at, unregister_session, remove_power_session,
}
use hardware_voltage_interfa.Perfmgr.PowerSessionManager.Pauses.{
  drop_boost, set_active, pause_at, pause, reset_metrics_of, resume_at, resume,
}

-- The manager with its votes and tasks kept.
unfoldable pub AreKept : Manager → Manager → Type 0
AreKept s t = Keeps s.votes_and_tasks t.votes_and_tasks

unfoldable pub AreSound : Manager → Type 0
AreSound s = IsSound s.votes_and_tasks.session_task_map

AreKept-refl : (s : Manager) → AreSound s → AreKept s s
unfolding AreKept AreSound
AreKept-refl s sound = Keeps-refl s.votes_and_tasks sound

module _ (c : Profile) (now : Now) where
  force_active-AreKept :
      (id : ℕ) (a : Bool) (s : Manager) → AreSound s → AreKept s (force_active c now id a s).0
  unfolding AreKept AreSound force_active
  force_active-AreKept id a s sound =
      force_session_active-Keeps c.settings now.dead now.steady id a s.votes_and_tasks sound

  replace_tasks-AreKept :
      (id : ℕ) (tids : List ℕ) (s : Manager) → AreSound s → AreKept s (replace_tasks id tids s).0
  unfolding AreKept AreSound replace_tasks
  replace_tasks-AreKept id tids s sound =
      let m = s.votes_and_tasks.session_task_map in
      elim (Option-cases (replace id tids m)) [
        | inl gone ↦ rw (gone, replace_tasks) (Keeps-refl s.votes_and_tasks sound)
        | inr ((n, added, removed), e) ↦ elim (Option-cases (find id m.sessions)) [
          | inl gone ↦ rw (e, gone, replace_tasks) (Keeps-refl s.votes_and_tasks sound)
          | inr (f, there) ↦
              rw (e, there, replace_tasks)
                (record {
                  map_kept = replaced-KeepsVotes id tids m n added removed e sound;
                  same_timeouts = refl;
                })
        ]
      ]

  AreKept-AreSound : (s t : Manager) → AreKept s t → AreSound s → AreSound t
  unfolding AreKept AreSound
  AreKept-AreSound s t kept sound = Keeps-IsSound s.votes_and_tasks t.votes_and_tasks kept sound

  AreKept-trans : (s t u : Manager) → AreKept s t → AreKept t u → AreKept s u
  unfolding AreKept
  AreKept-trans s t u a b = Keeps-trans s.votes_and_tasks t.votes_and_tasks u.votes_and_tasks a b

  pub set_threads-AreKept :
      (id : ℕ) (tids : List ℕ) (s : Manager)
      → AreSound s
      → AreKept s (set_threads_from_power_session c now id tids s).0
  unfolding set_threads_from_power_session
  set_threads-AreKept id tids s sound =
      let s1 = (force_active c now id false s).0 in
      let s2 = (replace_tasks id tids s1).0 in
      let first = force_active-AreKept id false s sound in
      let sound1 = AreKept-AreSound s s1 first sound in
      let second = replace_tasks-AreKept id tids s1 sound1 in
      let sound2 = AreKept-AreSound s1 s2 second sound1 in
      AreKept-trans s s1 (force_active c now id true s2).0 first (
        AreKept-trans s1 s2 (force_active c now id true s2).0 second
          (force_active-AreKept id true s2 sound2))

  end_metric-AreKept :
      (o : Option SessionMetrics) (s t : Manager) → AreKept s t → AreKept s (end_metric c now o t)
  unfolding AreKept end_metric
  end_metric-AreKept none s t kept = kept
  end_metric-AreKept (some x) s t kept = kept

  removed-AreKept :
      (id : ℕ) (s : Manager)
      → AreSound s
      → Keeps s.votes_and_tasks (change_map (λ m. (remove id m).0) s.votes_and_tasks)
  unfolding AreSound
  removed-AreKept id s sound = record {
    map_kept = remove-KeepsVotes id s.votes_and_tasks.session_task_map sound.distinct;
    same_timeouts = refl;
  }

  remove_at-AreKept :
      (id : ℕ) (s t : Manager) (first calls : List ManagerCall) (o : Option ℕ)
      → AreSound s
      → remove_at c now id (s, first) o ≡ some (t, calls)
      → AreKept s t
  unfolding remove_at AreKept
  remove_at-AreKept id s t first calls none sound h = absurd (ground arith)
  remove_at-AreKept id s t first calls (some p) sound h =
      let ended = end_metric c now (s.extras p).sess_frame_metrics s in
      let kept = end_metric-AreKept (s.extras p).sess_frame_metrics s s (AreKept-refl s sound) in
      let sound1 = AreKept-AreSound s ended kept sound in
      let emptied = (replace_tasks id [] ended).0 in
      let second = replace_tasks-AreKept id [] ended sound1 in
      let sound2 = AreKept-AreSound ended emptied second sound1 in
      let last = removed-AreKept id emptied sound2 in
      let gone = unregister_session id (record emptied {
        votes_and_tasks = change_map (λ m. (remove id m).0) emptied.votes_and_tasks;
      }) in
      let made : gone ≡ t = ap (λ (r : Outcome). r.0) (some_inj.0 h) in
      subst (AreKept s) made
        (AreKept-trans s ended gone kept (AreKept-trans ended emptied gone second last))

  pub remove_power_session-AreKept :
      (id : ℕ) (s t : Manager) (calls : List ManagerCall)
      → AreSound s
      → remove_power_session c now id s ≡ some (t, calls)
      → AreKept s t
  unfolding remove_power_session
  remove_power_session-AreKept id s t calls sound h =
      let s1 = (force_active c now id false s).0 in
      let first = force_active-AreKept id false s sound in
      AreKept-trans s s1 t first (
        remove_at-AreKept id s1 t (force_active c now id false s).1 calls (address_of id s1)
          (AreKept-AreSound s s1 first sound) h)

  drop_boost-AreKept :
      (id p : ℕ) (b : Bool) (s t : Manager) → AreKept s t → AreKept s (drop_boost id p b t).0
  unfolding AreKept drop_boost change_extras
  drop_boost-AreKept id p true s t kept = kept
  drop_boost-AreKept id p false s t kept = kept

  restart_metric-AreKept :
      (p : ℕ) (scenario : ScenarioType) (o : Option SessionMetrics) (s t : Manager)
      → AreKept s t
      → AreKept s (restart_metric c now p scenario o t)
  unfolding AreKept restart_metric change_extras collect_to
  restart_metric-AreKept p scenario none s t kept = kept
  restart_metric-AreKept p scenario (some x) s t kept = kept

  set_active-AreKept :
      (id : ℕ) (a : Bool) (s : Manager) → AreSound s → AreKept s (set_active id a s)
  unfolding AreKept AreSound
  set_active-AreKept id a s sound =
      change_entry-Keeps id (λ (v : SessionValueEntry). record v { is_active = a })
        s.votes_and_tasks (λ v. refl) sound

  apply_votes-AreKept :
      (id : ℕ) (s t : Manager) → AreSound s → AreKept s t → AreKept s (apply_votes c now id t).0
  unfolding AreKept AreSound apply_votes
  apply_votes-AreKept id s t sound kept = Keeps-trans s.votes_and_tasks t.votes_and_tasks _ kept (
      apply-Keeps c.settings now.dead id now.steady t.votes_and_tasks
        (Keeps-IsSound s.votes_and_tasks t.votes_and_tasks kept sound))

  either-AreKept :
      (b : Bool) (s : Manager) (one other : Outcome)
      → AreKept s one.0
      → AreKept s other.0
      → AreKept s (if b then one else other).0
  either-AreKept true s one other h k = h
  either-AreKept false s one other h k = k

  pause_at-AreKept :
      (id : ℕ) (o : Option ℕ) (s : Manager) → AreSound s → AreKept s (pause_at c now id s o).0
  unfolding pause_at
  pause_at-AreKept id none s sound = AreKept-refl s sound
  pause_at-AreKept id (some p) s sound =
      let s0 = set_active id false s in
      let s1 = (drop_boost id p (s.extras p).rampup_boost_active s0).0 in
      let kept =
        drop_boost-AreKept id p (s.extras p).rampup_boost_active s s0
          (set_active-AreKept id false s sound) in
      either-AreKept (s.votes_and_tasks.session_task_map.entries p).is_active s _ (s, [])
        (apply_votes-AreKept id s
          (restart_metric c now p (scenario_of s) (s.extras p).sess_frame_metrics s1) sound
          (restart_metric-AreKept p (scenario_of s) (s.extras p).sess_frame_metrics s s1 kept))
        (AreKept-refl s sound)

  pub pause-AreKept : (id : ℕ) (s : Manager) → AreSound s → AreKept s (pause c now id s).0
  unfolding pause
  pause-AreKept id s sound = pause_at-AreKept id (address_of id s) s sound

  change_extras-AreKept :
      (p : ℕ) (f : SessionExtras → SessionExtras) (s t : Manager)
      → AreKept s t
      → AreKept s (change_extras p f t)
  unfolding AreKept change_extras
  change_extras-AreKept p f s t kept = kept

  resume_at-AreKept :
      (id : ℕ) (o : Option ℕ) (s : Manager) → AreSound s → AreKept s (resume_at c now id s o).0
  unfolding resume_at
  resume_at-AreKept id none s sound = AreKept-refl s sound
  resume_at-AreKept id (some p) s sound =
      either-AreKept (s.votes_and_tasks.session_task_map.entries p).is_active s (s, []) _
        (AreKept-refl s sound)
        (apply_votes-AreKept id s _ sound (
          change_extras-AreKept p (reset_metrics_of now (scenario_of s)) s (set_active id true s)
            (set_active-AreKept id true s sound)))

  pub resume-AreKept : (id : ℕ) (s : Manager) → AreSound s → AreKept s (resume c now id s).0
  unfolding resume
  resume-AreKept id s sound = resume_at-AreKept id (address_of id s) s sound
