-- ===== src/Perfmgr/PowerHintSession/Requests.antt =====
-- The methods of PowerHintSession.h as requests, and histories of them.
use hardware_voltage_interfa.Base.{ℕ, Bool, Option, none, some, List, [], ◌∷◌, ◌++◌}
use hardware_voltage_interfa.Base.Int.{ℤ}
use hardware_voltage_interfa.Perfmgr.SessionRecords.{Float}
use hardware_voltage_interfa.Perfmgr.GpuCapacity.{Singles, Report}
use hardware_voltage_interfa.Perfmgr.PowerHintSession.{
  Doubles, AdpfConfig, Host, PowerHintSession, SessionHint, SessionMode, Call, Outcome, ok,
}
use hardware_voltage_interfa.Perfmgr.PowerHintSession.Calls.{
  pause, resume, close, set_mode, set_threads, set_adpf_profile, update_target_work_duration,
}
use hardware_voltage_interfa.Perfmgr.PowerHintSession.Hints.{send_hint}
use hardware_voltage_interfa.Perfmgr.PowerHintSession.Report.{report_actual_work_duration}

pub data Request (D : Type 0) : Type 0 where
  pause_it resume_it close_it : Request D
  set_target : ℤ → Request D
  report : List Report → Request D
  hint : SessionHint → Request D
  mode : SessionMode → Bool → Request D
  threads : List ℕ → Request D
  profile : AdpfConfig D → Request D

module _ (F : Float) (N : Doubles F.Double) (G : Singles F.Double) where
  open F use {Double}

  unfoldable pub perform :
      Host Double → Request Double → PowerHintSession Double → Option (Outcome Double)
  unfolding set_adpf_profile
  perform host pause_it s = pause s
  perform host resume_it s = resume s
  perform host close_it s = close s
  perform host (set_target n) s = update_target_work_duration F N host n s
  perform host (report ds) s = report_actual_work_duration F N G host ds s
  perform host (hint h) s = send_hint F N host h s
  perform host (mode m b) s = set_mode host m b s
  perform host (threads ids) s = set_threads F N host ids s
  perform host (profile c) s = some (set_adpf_profile c s, [], ok)

  -- A history, each request with what it learns from outside: the session and all its calls.
  unfoldable pub run :
      List (Host Double × Request Double)
      → PowerHintSession Double
      → Option (PowerHintSession Double × List Call)
  unfolding perform
  run [] s = some (s, [])
  run ((host, r) ∷ rs) s = elim (perform host r s) [
    | none ↦ none
    | some (t, calls, _) ↦ elim (run rs t) [
      | none ↦ none
      | some (u, more) ↦ some (u, calls ++ more)
    ]
  ]
