-- ===== src/Perfmgr/PowerHintSession/Reporting.antt =====
-- The calls of reportActualWorkDuration stay in the active phase.
use mathlib.Core.Path.{subst}
use hardware_voltage_interfa.Base.{
  ◌≡◌, refl, Option, none, some, List, [], ◌∷◌, get_last_or, arith, Option-cases, inl, inr,
}
use hardware_voltage_interfa.Base.Int.{ℤ}
use hardware_voltage_interfa.Perfmgr.SessionRecords.{Float}
use hardware_voltage_interfa.Perfmgr.GpuCapacity.{Singles, Report}
use hardware_voltage_interfa.Perfmgr.PowerHintSession.{
  Doubles, AdpfConfig, Host, PowerHintSession, Call,
}
use hardware_voltage_interfa.Perfmgr.PowerHintSession.Calls.{
  update_pid_control_variable, get_adpf_profile,
}
use hardware_voltage_interfa.Perfmgr.PowerHintSession.Report.{
  report_actual_work_duration, take_report, observe, boost, gpu_votes, apply_output, respond,
  count_report,
}
use hardware_voltage_interfa.Perfmgr.PowerHintSession.Pid.{convert_work_duration_to_boost_by_pid}
use hardware_voltage_interfa.Perfmgr.PowerHintSession.Phases.{
  active, phase_after, phase_of, phase_after-append, IsInPhase,
}

module _ (F : Float) (N : Doubles F.Double) (G : Singles F.Double) (host : Host F.Double) where
  open F use {Double}

  -- A part of a report stays in the active phase.
  IsSteady : PowerHintSession Double → Option (PowerHintSession Double × List Call) → Type 0
  IsSteady s none = Unit
  IsSteady s (some (t, calls)) =
      (phase_after calls active ≡ some active)
      × (t.session_closed ≡ s.session_closed)
      × (t.descriptor.is_active ≡ s.descriptor.is_active)

  gpu_votes_steady :
      (c : AdpfConfig Double) (d : Report) (s : PowerHintSession Double)
      → phase_after (gpu_votes F N G host c d s) active ≡ some active
  unfolding gpu_votes phase_after
  gpu_votes_steady c d s = ground arith

  observe-IsSteady :
      (c : AdpfConfig Double) (ds : List Report) (s : PowerHintSession Double)
      → IsSteady s (observe F N host c ds s)
  unfolding IsSteady observe phase_after
  observe-IsSteady c ds s = ground arith

  convert_steady :
      (c : AdpfConfig Double) (ds : List Report) (s t : PowerHintSession Double) (output : ℤ)
      → convert_work_duration_to_boost_by_pid F N c ds s ≡ some (t, output)
      → (t.session_closed ≡ s.session_closed) × (t.descriptor.is_active ≡ s.descriptor.is_active)
  unfolding convert_work_duration_to_boost_by_pid
  convert_steady c ds s t output h = ground arith

  apply_output-IsSteady :
      (c : AdpfConfig Double) (d : Report) (output : ℤ) (s : PowerHintSession Double)
      → IsSteady s (some (apply_output F N G host c d output s))
  unfolding IsSteady apply_output phase_after update_pid_control_variable
  apply_output-IsSteady c d output s =
      (gpu_votes_steady c d (apply_output F N G host c d output s).0, refl, refl)

  boost-IsSteady :
      (c : AdpfConfig Double) (d : Report) (ds : List Report) (s : PowerHintSession Double)
      → IsSteady s (boost F N G host c d ds s)
  unfolding IsSteady boost
  boost-IsSteady c d ds s =
      elim (Option-cases (convert_work_duration_to_boost_by_pid F N c (d ∷ ds) s)) [
        | inl e ↦ ground arith
        | inr ((t, output), e) ↦
            let kept = convert_steady c (d ∷ ds) s t output e in
            let steady = apply_output-IsSteady c (get_last_or d ds) output t in ground arith
      ]

  respond-IsSteady :
      (c : AdpfConfig Double) (d : Report) (ds : List Report) (s : PowerHintSession Double)
      → IsSteady s (respond F N G host c d ds s)
  unfolding IsSteady respond
  respond-IsSteady c d ds s = elim (Option-cases (observe F N host c (d ∷ ds) s)) [
    | inl e ↦ ground arith
    | inr ((t, seen), e) ↦ elim (Option-cases (boost F N G host c d ds t)) [
      | inl e' ↦ ground arith
      | inr ((u, votes), e') ↦
          let first = observe-IsSteady c (d ∷ ds) s in
          let second = boost-IsSteady c d ds t in
          ground (arith, phase_after-append seen votes active active)
    ]
  ]

  take_report-IsInPhase :
      (d : Report) (ds : List Report) (s : PowerHintSession Double)
      → phase_of s ≡ active
      → IsInPhase s (take_report F N G host d ds s)
  unfolding IsInPhase IsSteady take_report phase_of phase_after update_pid_control_variable
  take_report-IsInPhase d ds s h =
      let c = get_adpf_profile host s in
      let t = count_report F N G host s in
      elim (Option-cases (respond F N G host c d ds t)) [
        | inl e ↦ ground arith
        | inr ((u, more), e) ↦
            let steady : IsSteady t (some (u, more)) =
              subst (IsSteady t) e (respond-IsSteady c d ds t) in
            ground arith
      ]

  pub report-IsInPhase :
      (ds : List Report) (s : PowerHintSession Double)
      → IsInPhase s (report_actual_work_duration F N G host ds s)
  unfolding IsInPhase report_actual_work_duration phase_of
  report-IsInPhase [] s = ground arith
  report-IsInPhase (d ∷ ds) s = ground (arith, take_report-IsInPhase d ds s)
