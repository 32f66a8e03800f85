-- ===== src/Perfmgr/PowerSessionManager/Timeouts.antt =====
-- The timeout events of the manager: no vote stays active for ever unwatched.
use hardware_voltage_interfa.Base.{ℕ, ◌≡◌, inr, Bool, true, Option, some, List, ◌∷◌, ◌++◌, arith}
use hardware_voltage_interfa.Base.Int.{ℤ}
use hardware_voltage_interfa.Base.Dict.{find}
use hardware_voltage_interfa.Perfmgr.Votes.{update_duration, vote_timeout}
use hardware_voltage_interfa.Perfmgr.SessionTaskMap.{SessionTaskMap, ValEntry, votes_of}
use hardware_voltage_interfa.Perfmgr.PowerSessionManager.{
  EventSessionTimeout, Settings, PowerSessionManager, vote_set_cpu, vote_set_gpu, disable_boosts,
  switch_off, update_target_work_duration, handle_event, force_session_active,
  set_prefer_power_efficiency, boosts,
}
use hardware_voltage_interfa.Perfmgr.PowerSessionManager.Active.{
  IsActive, IsSound, switch_off-LastsTo,
}
use hardware_voltage_interfa.Perfmgr.PowerSessionManager.Threads.{
  force_session_active-Keeps, set_prefer_power_efficiency-Keeps,
}
use hardware_voltage_interfa.Perfmgr.PowerSessionManager.Sessions.{
  Profile, Now, Manager, ManagerCall, set_threads_from_power_session,
}
use hardware_voltage_interfa.Perfmgr.PowerSessionManager.Lifetime.{
  Descriptor, add_power_session, remove_power_session,
}
use hardware_voltage_interfa.Perfmgr.PowerSessionManager.Pauses.{pause, resume}
use hardware_voltage_interfa.Perfmgr.PowerSessionManager.Managed.{
  AreKept, AreSound, set_threads-AreKept, remove_power_session-AreKept, pause-AreKept,
  resume-AreKept,
}
use hardware_voltage_interfa.Perfmgr.PowerSessionManager.Watch.{
  InTime, IsWatched, Keeps-IsWatched, less-IsWatched, vote_set_cpu-IsWatched,
  vote_set_gpu-IsWatched,
}
use hardware_voltage_interfa.Perfmgr.PowerSessionManager.Events.{
  handle_event-IsWatched, added-IsWatched, retargeted-IsWatched,
}

-- The managers that the methods and the worker lead to, from one where no vote is active, each step with
-- a profile, clocks and dead tasks of its own. The worker takes any event of the queue. `timely`
-- names votes that updateTargetWorkDuration does not let end earlier, by session and vote; it may
-- name none.
pub data IsReachable (timely : ℕ → ℕ → Bool) : PowerSessionManager → Type 0 where
  started :
      {s : PowerSessionManager}
      → IsSound s.session_task_map
      → ((id k : ℕ) (t : ℤ) → ¬ IsActive id k t s.session_task_map)
      → IsReachable timely s
  voted_cpu :
      {s : PowerSessionManager} (c : Settings) (dead : ℕ → Bool) (id vote : ℕ)
      (low high start duration : ℤ)
      → IsReachable timely s
      → IsReachable timely (vote_set_cpu c dead id vote low high start duration s).0
  voted_gpu :
      {s : PowerSessionManager} (c : Settings) (id vote : ℕ) (capacity start duration : ℤ)
      → IsReachable timely s
      → IsReachable timely (vote_set_gpu c id vote capacity start duration s).0
  disabled :
      {s : PowerSessionManager} (id : ℕ)
      → IsReachable timely s
      → IsReachable timely (disable_boosts id s)
  retargeted :
      {s : PowerSessionManager} (id vote : ℕ) (duration : ℤ)
      → ((e : ValEntry)
          → find id s.session_task_map.sessions ≡ some e
          → InTime timely id vote
              (vote_timeout vote (votes_of s.session_task_map e))
              (vote_timeout vote (update_duration vote duration (votes_of s.session_task_map e))))
      → IsReachable timely s
      → IsReachable timely (update_target_work_duration id vote duration s)
  forced :
      {s : PowerSessionManager} (c : Settings) (dead : ℕ → Bool) (now : ℤ) (id : ℕ) (a : Bool)
      → IsReachable timely s
      → IsReachable timely (force_session_active c dead now id a s).0
  preferred :
      {s : PowerSessionManager} (c : Settings) (dead : ℕ → Bool) (now : ℤ) (id : ℕ) (enabled : Bool)
      → IsReachable timely s
      → IsReachable timely (set_prefer_power_efficiency c dead now id enabled s).0
  fired :
      {m : SessionTaskMap} (c : Settings) (dead : ℕ → Bool)
      (before after : List (EventSessionTimeout × ℤ)) (e : EventSessionTimeout) (due now : ℤ)
      → IsReachable timely (record { session_task_map = m; timeouts = before ++ (e, due) ∷ after })
      → IsReachable timely
          (handle_event c dead now e
            (record { session_task_map = m; timeouts = before ++ after })).0
  added :
      (s : Manager) (c : Profile) (now : Now) (d : Option Descriptor) (metrics : Bool)
      (tids : List ℕ)
      → IsReachable timely s.votes_and_tasks
      → IsReachable timely (add_power_session c now d metrics tids s).0.votes_and_tasks
  threads_set :
      (s : Manager) (c : Profile) (now : Now) (id : ℕ) (tids : List ℕ)
      → IsReachable timely s.votes_and_tasks
      → IsReachable timely (set_threads_from_power_session c now id tids s).0.votes_and_tasks
  removed :
      (s t : Manager) (calls : List ManagerCall) (c : Profile) (now : Now) (id : ℕ)
      → remove_power_session c now id s ≡ some (t, calls)
      → IsReachable timely s.votes_and_tasks
      → IsReachable timely t.votes_and_tasks
  paused :
      (s : Manager) (c : Profile) (now : Now) (id : ℕ)
      → IsReachable timely s.votes_and_tasks
      → IsReachable timely (pause c now id s).0.votes_and_tasks
  resumed :
      (s : Manager) (c : Profile) (now : Now) (id : ℕ)
      → IsReachable timely s.votes_and_tasks
      → IsReachable timely (resume c now id s).0.votes_and_tasks

-- Whatever sessions are added, removed, paused, resumed or given other threads, whatever votes are
-- set, switched off by disableBoosts, given other durations or applied by forceSessionActive and
-- setPreferPowerEfficiency, and in whatever order the worker fires its events: from a manager
-- whose sessions do not share votes and have none active, every active vote of every session
-- waits for a timeout event of its own in the queue of the worker. The event of a vote that `timely`
-- names, which updateTargetWorkDuration never lets end earlier, is due no later than the vote ends.
pub IsReachable-IsWatched :
    (timely : ℕ → ℕ → Bool) (s : PowerSessionManager) → IsReachable timely s → IsWatched timely s
unfolding disable_boosts AreKept AreSound
IsReachable-IsWatched timely s (started sound idle) = record {
  sound = sound;
  watched = λ id k t act. absurd (idle id k t act);
}
IsReachable-IsWatched timely _ (voted_cpu {s} c dead id vote low high start duration r) =
    vote_set_cpu-IsWatched timely c dead s id vote low high start duration
      (IsReachable-IsWatched timely s r)
IsReachable-IsWatched timely _ (voted_gpu {s} c id vote capacity start duration r) =
    vote_set_gpu-IsWatched timely c (λ tid. true) s id vote capacity start duration
      (IsReachable-IsWatched timely s r)
IsReachable-IsWatched timely _ (disabled {s} id r) =
    less-IsWatched timely id (switch_off boosts) s.session_task_map s.timeouts
      (λ e k t found on. (t, switch_off-LastsTo boosts k t _ on, inr (omega arith)))
      (IsReachable-IsWatched timely s r)
IsReachable-IsWatched timely _ (retargeted {s} id vote duration longer r) =
    retargeted-IsWatched timely s id vote duration longer (IsReachable-IsWatched timely s r)
IsReachable-IsWatched timely _ (forced {s} c dead now id a r) =
    let w = IsReachable-IsWatched timely s r in
    Keeps-IsWatched timely s _ (force_session_active-Keeps c dead now id a s w.sound) w
IsReachable-IsWatched timely _ (preferred {s} c dead now id enabled r) =
    let w = IsReachable-IsWatched timely s r in
    Keeps-IsWatched timely s _ (set_prefer_power_efficiency-Keeps c dead now id enabled s w.sound) w
IsReachable-IsWatched timely _ (fired {m} c dead before after e due now r) =
    handle_event-IsWatched timely c dead m before after e due now (IsReachable-IsWatched timely _ r)
IsReachable-IsWatched timely _ (added s c now d metrics tids r) =
    added-IsWatched timely s c now d metrics tids (IsReachable-IsWatched timely _ r)
IsReachable-IsWatched timely _ (threads_set s c now id tids r) =
    let w = IsReachable-IsWatched timely s.votes_and_tasks r in
    Keeps-IsWatched timely _ _ (set_threads-AreKept c now id tids s w.sound) w
IsReachable-IsWatched timely _ (removed s t calls c now id h r) =
    let w = IsReachable-IsWatched timely s.votes_and_tasks r in
    Keeps-IsWatched timely _ _ (remove_power_session-AreKept c now id s t calls w.sound h) w
IsReachable-IsWatched timely _ (paused s c now id r) =
    let w = IsReachable-IsWatched timely s.votes_and_tasks r in
    Keeps-IsWatched timely _ _ (pause-AreKept c now id s w.sound) w
IsReachable-IsWatched timely _ (resumed s c now id r) =
    let w = IsReachable-IsWatched timely s.votes_and_tasks r in
    Keeps-IsWatched timely _ _ (resume-AreKept c now id s w.sound) w
