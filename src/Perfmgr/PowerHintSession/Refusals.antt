-- ===== src/Perfmgr/PowerHintSession/Refusals.antt =====
-- Which requests a session refuses, and that a refused request does nothing.
use hardware_voltage_interfa.Base.{
  ◌≡◌, refl, Bool, true, false, not, ◌||◌, Option, none, some, List, [], ◌∷◌, ℕ, if◌then◌else◌,
  arith,
}
use hardware_voltage_interfa.Base.Int.{ℤ, pos, leb_ℤ, eq_ℤ}
use hardware_voltage_interfa.Perfmgr.SessionRecords.{Float}
use hardware_voltage_interfa.Perfmgr.GpuCapacity.{Singles, Report}
use hardware_voltage_interfa.Perfmgr.PowerHintSession.{
  Doubles, Host, PowerHintSession, SessionHint, SessionMode, unknown_hint, unknown_mode,
  power_efficiency_mode, Outcome, Status, ok, illegal_state, illegal_argument,
}
use hardware_voltage_interfa.Perfmgr.PowerHintSession.Calls.{
  pause, resume, close, set_mode, set_threads, update_target_work_duration,
}
use hardware_voltage_interfa.Perfmgr.PowerHintSession.Hints.{send_hint}
use hardware_voltage_interfa.Perfmgr.PowerHintSession.Report.{
  report_actual_work_duration, take_report,
}
use hardware_voltage_interfa.Perfmgr.PowerHintSession.Requests.{
  Request, pause_it, resume_it, close_it, set_target, report, hint, mode, threads, profile, perform,
}

-- The order of the tests is one for all requests: a session that is not in a state for the request
-- refuses it by its state, and only then by its argument, but for reports.
abbrev pub refused_by_state : {D : Type 0} → Request D → PowerHintSession D → Bool
refused_by_state pause_it s = s.session_closed || not s.descriptor.is_active
refused_by_state resume_it s = s.session_closed || s.descriptor.is_active
refused_by_state close_it s = s.session_closed
refused_by_state (set_target n) s = s.session_closed
refused_by_state (report []) s = s.session_closed || eq_ℤ s.descriptor.target_ns (pos 0)
refused_by_state (report (d ∷ ds)) s =
    s.session_closed || (eq_ℤ s.descriptor.target_ns (pos 0) || not s.descriptor.is_active)
refused_by_state (hint h) s = s.session_closed || eq_ℤ s.descriptor.target_ns (pos 0)
refused_by_state (mode m b) s = s.session_closed
refused_by_state (threads ids) s = s.session_closed
refused_by_state (profile c) s = false

abbrev pub is_unknown_hint : SessionHint → Bool
is_unknown_hint (unknown_hint n) = true
is_unknown_hint _ = false

abbrev pub has_bad_argument : {D : Type 0} → Request D → Bool
has_bad_argument (set_target n) = leb_ℤ n (pos 0)
has_bad_argument (report []) = true
has_bad_argument (report (d ∷ ds)) = false
has_bad_argument (hint h) = is_unknown_hint h
has_bad_argument (mode unknown_mode b) = true
has_bad_argument (mode power_efficiency_mode b) = false
has_bad_argument (threads []) = true
has_bad_argument (threads (x ∷ ids)) = false
has_bad_argument _ = false

unfoldable pub answer_of : {D : Type 0} → Request D → PowerHintSession D → Status
answer_of r s =
    if refused_by_state r s
    then illegal_state
    else if has_bad_argument r
    then illegal_argument
    else ok

-- A refusal has its status and nothing else; a request that is not refused, if it returns, is ok.
unfoldable pub IsAnswered : {D : Type 0} → Status → PowerHintSession D → Option (Outcome D) → Type 0
IsAnswered ok s none = Unit
IsAnswered ok s (some (t, calls, status)) = status ≡ ok
IsAnswered illegal_state s out = out ≡ some (s, [], illegal_state)
IsAnswered illegal_argument s out = out ≡ some (s, [], illegal_argument)

module _ (F : Float) (N : Doubles F.Double) (G : Singles F.Double) (host : Host F.Double) where
  open F use {Double}

  set_target-IsAnswered :
      (n : ℤ) (s : PowerHintSession Double)
      → IsAnswered (answer_of (set_target n) s) s (update_target_work_duration F N host n s)
  unfolding IsAnswered answer_of update_target_work_duration
  set_target-IsAnswered n s = ground arith

  simple-IsAnswered :
      (s : PowerHintSession Double) (m : SessionMode) (b : Bool) (ids : List ℕ)
      → (IsAnswered (answer_of pause_it s) s (pause s)
          × IsAnswered (answer_of resume_it s) s (resume s)
          × IsAnswered (answer_of close_it s) s (close s)
          × IsAnswered (answer_of (mode m b) s) s (set_mode host m b s)
          × IsAnswered (answer_of (threads ids) s) s (set_threads F N host ids s))
  unfolding IsAnswered answer_of pause resume close set_mode set_threads
  simple-IsAnswered s m b ids =
      (ground arith, ground arith, ground arith, ground arith, ground arith)

  hint-IsAnswered :
      (h : SessionHint) (s : PowerHintSession Double)
      → IsAnswered (answer_of (hint h) s) s (send_hint F N host h s)
  unfolding IsAnswered answer_of send_hint
  hint-IsAnswered h s = ground arith

  IsOk : Option (Outcome Double) → Type 0
  IsOk none = Unit
  IsOk (some (t, calls, status)) = status ≡ ok

  take_report-IsOk :
      (d : Report) (ds : List Report) (s : PowerHintSession Double)
      → IsOk (take_report F N G host d ds s)
  unfolding take_report IsOk
  take_report-IsOk d ds s = ground arith

  report-IsAnswered :
      (ds : List Report) (s : PowerHintSession Double)
      → IsAnswered (answer_of (report ds) s) s (report_actual_work_duration F N G host ds s)
  unfolding IsAnswered answer_of report_actual_work_duration IsOk
  report-IsAnswered [] s = ground arith
  report-IsAnswered (d ∷ ds) s = ground (arith, take_report-IsOk d ds s)

  -- A session refuses a request by its state where the session is closed (setAdpfProfile apart), a
  -- pause meets a paused session, a resume an active one, a report or a hint a target of 0, or a
  -- report of durations a paused session; and else by its argument where a new target is not positive,
  -- there are no durations or no threads, or the hint or mode is unknown. It then answers
  -- EX_ILLEGAL_STATE or EX_ILLEGAL_ARGUMENT, does not change and calls nothing. All other requests
  -- that return answer ok.
  pub perform-IsAnswered :
      (r : Request Double) (s : PowerHintSession Double)
      → IsAnswered (answer_of r s) s (perform F N G host r s)
  unfolding perform IsAnswered answer_of
  perform-IsAnswered pause_it s = (simple-IsAnswered s unknown_mode false []).0
  perform-IsAnswered resume_it s = (simple-IsAnswered s unknown_mode false []).1
  perform-IsAnswered close_it s = (simple-IsAnswered s unknown_mode false []).2
  perform-IsAnswered (set_target n) s = set_target-IsAnswered n s
  perform-IsAnswered (report ds) s = report-IsAnswered ds s
  perform-IsAnswered (hint h) s = hint-IsAnswered h s
  perform-IsAnswered (mode m b) s = (simple-IsAnswered s m b []).3
  perform-IsAnswered (threads ids) s = (simple-IsAnswered s unknown_mode false ids).4
  perform-IsAnswered (profile c) s = refl
