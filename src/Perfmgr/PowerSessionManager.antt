-- ===== src/Perfmgr/PowerSessionManager.antt =====
-- power-libperfmgr/aidl/PowerSessionManager.h and PowerSessionManager.cpp: votes, their timeouts, and
-- the ranges that they give the tasks, over Perfmgr/SessionTaskMap.antt. A method returns the new
-- manager and the calls that leave it, in order. The worker's queue is the list of the timeout
-- events that are due some time; `lastUpdatedTime` and tracing are left out.
pub mod Active
pub mod Kept
pub mod Threads
pub mod Managed
pub mod Added
pub mod Watch
pub mod Events
pub mod Timeouts
pub mod Ranges
pub mod Sessions
pub mod Lifetime
pub mod Pauses
pub mod Collected
pub mod Removal
mod Tests
use hardware_voltage_interfa.Base.{
  ℕ, Bool, true, false, not, ◌&&◌, ◌||◌, Option, none, some, List, [], ◌∷◌, ◌++◌, if◌then◌else◌,
}
use hardware_voltage_interfa.Base.Int.{ℤ, pos, ◌+ℤ◌, ltb_ℤ, leb_ℤ, max_ℤ, min_ℤ}
use hardware_voltage_interfa.Base.Dict.{find, assign}
use hardware_voltage_interfa.Perfmgr.Votes.{
  Votes, UclampRange, default_range, vote_id, cpu_load_up, cpu_load_reset, cpu_load_resume,
  vote_power_efficiency, gpu_load_up, gpu_load_reset, set_use_vote, update_duration, vote_is_active,
  vote_timeout,
}
use hardware_voltage_interfa.Perfmgr.SessionTaskMap.{
  SessionTaskMap, ValEntry, SessionValueEntry, Efficiency, store, change_votes, add_vote,
  add_gpu_vote, find_session, get_task_vote_range, get_sessions_gpu_capacity,
  remove_dead_task_session_map,
}

pub record EventSessionTimeout : Type 0 where
  pub time_stamp : ℤ
  pub session_id : ℕ
  pub vote_id : ℕ

-- What the manager reads of the profile, and whether there is a node for the GPU's capacity.
pub record Settings : Type 0 where
  pub uclamp_min_on : Bool
  pub efficiency : Option Efficiency
  pub gpu_boost_on : Option Bool
  pub has_gpu_node : Bool

pub record PowerSessionManager : Type 0 where
  pub session_task_map : SessionTaskMap
  pub timeouts : List (EventSessionTimeout × ℤ)

pub data Call : Type 0 where
  sched_setattr : ℕ → UclampRange → Call
  set_gpu_capacity : ℤ → Call

abbrev pub Effect : Type 0
Effect = PowerSessionManager × List Call

-- The range that `set_uclamp` hands to the system.
unfoldable pub bound_range : UclampRange → UclampRange
bound_range r =
    let low = min_ℤ (max_ℤ (pos 0) r.uclamp_min) (pos 1024) in
    record { uclamp_min = low; uclamp_max = min_ℤ (max_ℤ r.uclamp_max low) (pos 1024) }

-- The loop of `applyUclampLocked`, where `dead` tells for which tasks the system call answers ESRCH:
-- the map, the tasks that stay linked, and the calls. The methods of the map that the loop calls do
-- not read the vector that it erases from.
unfoldable pub apply_loop :
    Settings → (ℕ → Bool) → ℕ → ℤ → List ℕ → SessionTaskMap → SessionTaskMap × List ℕ × List Call
unfolding bound_range
apply_loop c dead id t [] m = (m, [], [])
apply_loop c dead id t (tid ∷ tids) m =
    let range = bound_range (get_task_vote_range m tid t c.efficiency default_range) in
    let (n, kept, calls) =
      apply_loop c dead id t tids
        (if dead tid then (remove_dead_task_session_map id tid m).0 else m) in
    (n, if dead tid then kept else tid ∷ kept, sched_setattr tid range ∷ calls)

-- `applyUclampLocked` with what `findSession` answers.
unfoldable pub apply_to :
    Settings → (ℕ → Bool) → ℕ → ℤ → SessionTaskMap → Option ValEntry → SessionTaskMap × List Call
unfolding apply_loop
apply_to c dead id t m none = (m, [])
apply_to c dead id t m (some e) =
    let (n, kept, calls) = apply_loop c dead id t e.linked_tasks m in
    if not c.uclamp_min_on then (m, []) else (
      record n { sessions = assign id (record { val = e.val; linked_tasks = kept }) n.sessions },
      calls,
    )

unfoldable pub apply_uclamp :
    Settings → (ℕ → Bool) → ℕ → ℤ → SessionTaskMap → SessionTaskMap × List Call
unfolding apply_to
apply_uclamp c dead id t m = apply_to c dead id t m (find id m.sessions)

-- `gpuVotingOn` is an `optional`, which is true where it has a value.
unfoldable pub apply_gpu_votes : Settings → ℕ → ℤ → SessionTaskMap → List Call
apply_gpu_votes c id t m = elim (find id m.sessions) [
  | none ↦ []
  | some e ↦ elim c.gpu_boost_on [
    | none ↦ []
    | some on ↦ if c.has_gpu_node then set_gpu_capacity (get_sessions_gpu_capacity m t) ∷ [] else []
  ]
]

unfoldable pub apply_cpu_and_gpu_votes :
    Settings → (ℕ → Bool) → ℕ → ℤ → PowerSessionManager → Effect
unfolding apply_uclamp apply_gpu_votes
apply_cpu_and_gpu_votes c dead id t s =
    let (m, calls) = apply_uclamp c dead id t s.session_task_map in
    (record s { session_task_map = m }, calls ++ apply_gpu_votes c id t m)

unfoldable pub should_schedule_timeout : Votes → ℕ → ℤ → Bool
should_schedule_timeout v vote deadline =
    not (vote_is_active vote v) || ltb_ℤ deadline (vote_timeout vote v)

-- `mEventSessionTimeoutWorker.schedule(...)`, if it is asked for.
abbrev pub schedule_if : Bool → EventSessionTimeout → ℤ → PowerSessionManager → PowerSessionManager
schedule_if true e due s = record s { timeouts = (e, due) ∷ s.timeouts }
schedule_if false e due s = s

abbrev pub vote_event : ℤ → ℕ → ℕ → EventSessionTimeout
vote_event start id vote = record { time_stamp = start; session_id = id; vote_id = vote }

unfoldable pub vote_set_cpu :
    Settings → (ℕ → Bool) → ℕ → ℕ → ℤ → ℤ → ℤ → ℤ → PowerSessionManager → Effect
unfolding apply_uclamp should_schedule_timeout
vote_set_cpu c dead id vote low high start duration s =
    let m = s.session_task_map in
    elim (find_session id m) [
      | none ↦ (s, [])
      | some e ↦
          let scheduled = should_schedule_timeout (m.votes e.votes) vote (start +ℤ duration) in
          let (n, calls) =
            apply_uclamp c dead id start (add_vote id vote low high start duration m) in
          (
            schedule_if scheduled (vote_event start id vote) (start +ℤ duration)
                (record s { session_task_map = n }),
            calls,
          )
    ]

unfoldable pub vote_set_gpu : Settings → ℕ → ℕ → ℤ → ℤ → ℤ → PowerSessionManager → Effect
unfolding apply_gpu_votes should_schedule_timeout
vote_set_gpu c id vote capacity start duration s =
    let m = s.session_task_map in
    elim (find_session id m) [
      | none ↦ (s, [])
      | some e ↦
          let scheduled = should_schedule_timeout (m.votes e.votes) vote (start +ℤ duration) in
          let n = add_gpu_vote id vote capacity start duration m in
          (
            schedule_if scheduled (vote_event start id vote) (start +ℤ duration)
                (record s { session_task_map = n }),
            apply_gpu_votes c id start n,
          )
    ]

abbrev pub change_map :
    (SessionTaskMap → SessionTaskMap) → PowerSessionManager → PowerSessionManager
change_map f s = record s { session_task_map = f s.session_task_map }

abbrev pub off : ℕ → Votes → Votes
off vote v = (set_use_vote vote false v).0

-- The boosts that `disableBoosts` switches off, in its order.
abbrev pub boosts : List ℕ
boosts =
    vote_id cpu_load_up
    ∷ vote_id cpu_load_reset
    ∷ vote_id cpu_load_resume
    ∷ vote_id vote_power_efficiency
    ∷ vote_id gpu_load_up
    ∷ vote_id gpu_load_reset
    ∷ []

unfoldable pub switch_off : List ℕ → Votes → Votes
switch_off [] v = v
switch_off (x ∷ xs) v = switch_off xs (off x v)

unfoldable pub disable_boosts : ℕ → PowerSessionManager → PowerSessionManager
unfolding switch_off
disable_boosts id s = change_map (change_votes id (switch_off boosts)) s

unfoldable pub update_target_work_duration : ℕ → ℕ → ℤ → PowerSessionManager → PowerSessionManager
update_target_work_duration id vote duration s =
    change_map (change_votes id (update_duration vote duration)) s

-- `handleEvent`, for the event that the worker has taken from its queue; `now` is the clock.
unfoldable pub handle_event :
    Settings → (ℕ → Bool) → ℤ → EventSessionTimeout → PowerSessionManager → Effect
unfolding apply_cpu_and_gpu_votes
handle_event c dead now e s =
    let m = s.session_task_map in
    elim (find_session e.session_id m) [
      | none ↦ (s, [])
      | some sv ↦
          let v = m.votes sv.votes in
          let until = vote_timeout e.vote_id v in
          if not (vote_is_active e.vote_id v)
          then (s, [])
          else if leb_ℤ until now
          then apply_cpu_and_gpu_votes c dead e.session_id now
              (change_map (change_votes e.session_id (off e.vote_id)) s)
          else (schedule_if true e until s, [])
    ]

-- `sessValPtr->... = ...` on a session that is there.
unfoldable pub change_entry :
    ℕ → (SessionValueEntry → SessionValueEntry) → SessionTaskMap → SessionTaskMap
change_entry id f m = elim (find id m.sessions) [
  | none ↦ m
  | some e ↦ record m { entries = store e.val (f (m.entries e.val)) m.entries }
]

unfoldable pub force_session_active :
    Settings → (ℕ → Bool) → ℤ → ℕ → Bool → PowerSessionManager → Effect
unfolding apply_cpu_and_gpu_votes change_entry
force_session_active c dead now id a s = elim (find_session id s.session_task_map) [
  | none ↦ (s, [])
  | some e ↦
      apply_cpu_and_gpu_votes c dead id now
        (change_map (change_entry id (λ (v : SessionValueEntry). record v { is_active = a })) s)
]

abbrev pub same_bool : Bool → Bool → Bool
same_bool true b = b
same_bool false b = not b

unfoldable pub set_prefer_power_efficiency :
    Settings → (ℕ → Bool) → ℤ → ℕ → Bool → PowerSessionManager → Effect
unfolding apply_uclamp change_entry
set_prefer_power_efficiency c dead now id enabled s = elim (find_session id s.session_task_map) [
  | none ↦ (s, [])
  | some e ↦
      let (m, calls) = apply_uclamp c dead id now (
        change_entry id (λ (v : SessionValueEntry). record v { is_power_efficient = enabled })
          s.session_task_map) in
      if same_bool enabled e.is_power_efficient
      then (s, [])
      else (record s { session_task_map = m }, calls)
]
