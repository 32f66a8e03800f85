-- ===== src/Perfmgr/PowerHintSession/History.antt =====
-- The calls of a session over its whole life.
use mathlib.Core.Path.{subst}
use hardware_voltage_interfa.Base.{
  ℕ, ◌≡◌, ◌∙◌, refl, Bool, false, some, List, [], ◌∷◌, ◌++◌, arith, Option-cases, inl, inr,
}
use hardware_voltage_interfa.Base.Int.{ℤ}
use hardware_voltage_interfa.Perfmgr.SessionRecords.{Float}
use hardware_voltage_interfa.Perfmgr.GpuCapacity.{Singles}
use hardware_voltage_interfa.Perfmgr.PowerHintSession.{
  Doubles, Host, PowerHintSession, SessionTag, ProcessTag, unknown_mode, Call,
}
use hardware_voltage_interfa.Perfmgr.PowerHintSession.Calls.{create}
use hardware_voltage_interfa.Perfmgr.PowerHintSession.Requests.{
  Request, pause_it, resume_it, close_it, set_target, report, hint, mode, threads, profile, perform,
  run,
}
use hardware_voltage_interfa.Perfmgr.PowerHintSession.Phases.{
  unborn, active, phase_after, phase_of, phase_after-append, IsInPhase, plain-IsInPhase,
  set_target-IsInPhase, send_hint-IsInPhase,
}
use hardware_voltage_interfa.Perfmgr.PowerHintSession.Reporting.{report-IsInPhase}

module _ (F : Float) (N : Doubles F.Double) (G : Singles F.Double) (host : Host F.Double) where
  open F use {Double}

  perform-IsInPhase :
      (r : Request Double) (s : PowerHintSession Double) → IsInPhase s (perform F N G host r s)
  unfolding perform IsInPhase phase_after phase_of
  perform-IsInPhase pause_it s = (plain-IsInPhase F N G host s unknown_mode false []).0
  perform-IsInPhase resume_it s = (plain-IsInPhase F N G host s unknown_mode false []).1
  perform-IsInPhase close_it s = (plain-IsInPhase F N G host s unknown_mode false []).2
  perform-IsInPhase (set_target n) s = set_target-IsInPhase F N G host n s
  perform-IsInPhase (report ds) s = report-IsInPhase F N G host ds s
  perform-IsInPhase (hint h) s = send_hint-IsInPhase F N G host h s
  perform-IsInPhase (mode m b) s = (plain-IsInPhase F N G host s m b []).3
  perform-IsInPhase (threads ids) s = (plain-IsInPhase F N G host s unknown_mode false ids).4
  perform-IsInPhase (profile c) s = refl

module _ (F : Float) (N : Doubles F.Double) (G : Singles F.Double) where
  open F use {Double}

  run_phase :
      (rs : List (Host Double × Request Double)) (s u : PowerHintSession Double) (calls : List Call)
      → run F N G rs s ≡ some (u, calls)
      → phase_after calls (phase_of s) ≡ some (phase_of u)
  unfolding run phase_after IsInPhase
  run_phase [] s u calls h = ground arith
  run_phase ((host, r) ∷ rs) s u calls h = elim (Option-cases (perform F N G host r s)) [
    | inl e ↦ ground arith
    | inr ((t, first, status), e) ↦ elim (Option-cases (run F N G rs t)) [
      | inl e' ↦ ground arith
      | inr ((v, more), e') ↦
          let one : IsInPhase s (some (t, first, status)) =
            subst (IsInPhase s) e (perform-IsInPhase F N G host r s) in
          let rest = run_phase rs t v more e' in
          let joined = phase_after-append first more (phase_of s) (phase_of t) one in ground arith
    ]
  ]

  -- Whatever is asked of a session from its creation on, and whatever it learns from outside, as long
  -- as every request returns: what it calls follows the protocol. The session is added once, pauses
  -- and resumes alternate from there, and it is removed at most once, after which its manager hears
  -- nothing of it. What follows from reports comes between a resume (or the start) and a pause. The
  -- phase that the calls lead to is the one that the fields of the session show.
  pub history-IsInPhase :
      (host : Host Double) (id : ℤ) (tgid uid : ℕ) (ids : List ℕ) (duration : ℤ) (tag : SessionTag)
      (process : ProcessTag) (metrics : Bool) (rs : List (Host Double × Request Double))
      (u : PowerHintSession Double) (calls : List Call)
      → run F N G rs (create F N host id tgid uid ids duration tag process metrics).0
        ≡ some (u, calls)
      → phase_after
          ((create F N host id tgid uid ids duration tag process metrics).1 ++ calls)
          unborn
        ≡ some (phase_of u)
  unfolding create phase_after phase_of
  history-IsInPhase host id tgid uid ids duration tag process metrics rs u calls h =
      let born = run_phase rs _ u calls h in
      let made : phase_after (create F N host id tgid uid ids duration tag process metrics).1 unborn
          ≡ some active =
        created process in
      phase_after-append (create F N host id tgid uid ids duration tag process metrics).1 calls
        unborn active made
      ∙ born
    where
      created :
          (q : ProcessTag)
          → phase_after (create F N host id tgid uid ids duration tag q metrics).1 unborn
            ≡ some active
      created q = ground arith
