-- ===== src/Perfmgr/PowerHintSession/Phases.antt =====
-- What the session manager hears of a session, in order: a protocol of three phases.
use hardware_voltage_interfa.Base.{
  ℕ, ◌≡◌, Bool, true, false, Option, none, some, List, [], ◌∷◌, ◌++◌, if◌then◌else◌, arith,
  Option-cases, inl, inr,
}
use hardware_voltage_interfa.Base.Int.{ℤ}
use hardware_voltage_interfa.Perfmgr.Votes.{AdpfVoteType, gpu_capacity}
use hardware_voltage_interfa.Perfmgr.SessionRecords.{Float}
use hardware_voltage_interfa.Perfmgr.GpuCapacity.{Singles}
use hardware_voltage_interfa.Perfmgr.PowerHintSession.{
  Doubles, Host, PowerHintSession, SessionHint, SessionMode, Call, Outcome, add_power_session,
  remove_power_session, pause_session, resume_session, disable_boosts,
  set_threads_from_power_session, vote_cpu, vote_gpu, update_target, set_prefer_power_efficiency,
  update_hboost_statistics, update_frame_metrics, update_collected_session_metrics,
  update_rampup_boost_mode, do_hint, register_process, unregister_process, register_tag,
  unregister_tag,
}
use hardware_voltage_interfa.Perfmgr.PowerHintSession.Calls.{
  pause, resume, close, set_mode, set_threads, update_target_work_duration,
}
use hardware_voltage_interfa.Perfmgr.PowerHintSession.Hints.{send_hint}

-- Unborn, then active and paused in turn, and at last gone.
pub data Phase : Type 0 where
  unborn active paused gone : Phase

abbrev is_gpu_capacity : AdpfVoteType → Bool
is_gpu_capacity gpu_capacity = true
is_gpu_capacity _ = false

abbrev if_active : Phase → Option Phase
if_active active = some active
if_active _ = none

abbrev if_alive : Phase → Option Phase
if_alive active = some active
if_alive paused = some paused
if_alive _ = none

-- The phase after a call, or none where the call is out of place. What follows from reports of
-- durations is in place in the active phase only.
unfoldable pub after : Call → Phase → Option Phase
after (add_power_session ids b) unborn = some active
after (add_power_session ids b) _ = none
after remove_power_session active = some gone
after remove_power_session paused = some gone
after remove_power_session _ = none
after pause_session active = some paused
after pause_session _ = none
after resume_session paused = some active
after resume_session _ = none
after disable_boosts p = if_active p
after (update_hboost_statistics level n) p = if_active p
after (update_frame_metrics m) p = if_active p
after update_collected_session_metrics p = if_active p
after (update_rampup_boost_mode level low high) p = if_active p
after (vote_gpu v c t d) p = if is_gpu_capacity v then if_active p else if_alive p
after (set_threads_from_power_session ids) p = if_alive p
after (vote_cpu v r t d) p = if_alive p
after (update_target v n) p = if_alive p
after (set_prefer_power_efficiency b) p = if_alive p
after (do_hint h d) p = if_alive p
after (register_process q) unborn = some unborn
after (register_process q) _ = none
after (register_tag q) unborn = some unborn
after (register_tag q) _ = none
after (unregister_process q) gone = some gone
after (unregister_process q) _ = none
after (unregister_tag q) gone = some gone
after (unregister_tag q) _ = none

unfoldable pub phase_after : List Call → Phase → Option Phase
unfolding after
phase_after [] p = some p
phase_after (x ∷ xs) p = elim (after x p) [ none ↦ none | some q ↦ phase_after xs q ]

unfoldable pub phase_of : {D : Type 0} → PowerHintSession D → Phase
phase_of s = if s.session_closed then gone else if s.descriptor.is_active then active else paused

pub phase_after-append :
    (xs ys : List Call) (p q : Phase)
    → phase_after xs p ≡ some q
    → phase_after (xs ++ ys) p ≡ phase_after ys q
unfolding phase_after
phase_after-append [] ys p q h = ground arith
phase_after-append (x ∷ xs) ys p q h = elim (Option-cases (after x p)) [
  | inl e ↦ ground arith
  | inr (r, e) ↦ ground (arith, phase_after-append xs ys r q)
]

-- The calls of a method lead from the phase of the session before to the phase after.
unfoldable pub IsInPhase : {D : Type 0} → PowerHintSession D → Option (Outcome D) → Type 0
unfolding phase_after phase_of
IsInPhase s none = Unit
IsInPhase s (some (t, calls, status)) = phase_after calls (phase_of s) ≡ some (phase_of t)

module _ (F : Float) (N : Doubles F.Double) (G : Singles F.Double) (host : Host F.Double) where
  open F use {Double}

  pub plain-IsInPhase :
      (s : PowerHintSession Double) (m : SessionMode) (b : Bool) (ids : List ℕ)
      → IsInPhase s (pause s)
        × IsInPhase s (resume s)
        × IsInPhase s (close s)
        × IsInPhase s (set_mode host m b s)
        × IsInPhase s (set_threads F N host ids s)
  unfolding IsInPhase pause resume close set_mode set_threads
  plain-IsInPhase s m b ids = (ground arith, ground arith, ground arith, ground arith, ground arith)

  pub set_target-IsInPhase :
      (n : ℤ) (s : PowerHintSession Double) → IsInPhase s (update_target_work_duration F N host n s)
  unfolding IsInPhase update_target_work_duration
  set_target-IsInPhase n s = ground arith

  pub send_hint-IsInPhase :
      (h : SessionHint) (s : PowerHintSession Double) → IsInPhase s (send_hint F N host h s)
  unfolding IsInPhase send_hint
  send_hint-IsInPhase h s = ground arith
