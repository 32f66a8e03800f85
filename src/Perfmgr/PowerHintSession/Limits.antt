-- ===== src/Perfmgr/PowerHintSession/Limits.antt =====
-- The votes of a report: what reportActualWorkDuration asks of the processors is within the limits of
-- the profile.
use mathlib.Core.Path.{subst}
use hardware_voltage_interfa.Base.{
  ℕ, ◌≡◌, refl, true, Option, none, some, List, [], ◌∷◌, ◌++◌, get_last_or, arith, Option-cases,
  inl, inr,
}
use hardware_voltage_interfa.Base.Int.{ℤ, pos, ◌+ℤ◌, ◌≤ℤ◌, max_ℤ, min_ℤ, to_i32}
use hardware_voltage_interfa.Perfmgr.Votes.{cpu_vote_default, gpu_capacity}
use hardware_voltage_interfa.Perfmgr.SessionRecords.{Float}
use hardware_voltage_interfa.Perfmgr.GpuCapacity.{Singles, Report}
use hardware_voltage_interfa.Perfmgr.PowerHintSession.{
  Doubles, AdpfConfig, Host, PowerHintSession, Call, ok, vote_cpu, vote_gpu, disable_boosts,
}
use hardware_voltage_interfa.Perfmgr.PowerHintSession.Calls.{
  get_adpf_profile, from_min, update_pid_control_variable,
}
use hardware_voltage_interfa.Perfmgr.PowerHintSession.Pid.{convert_work_duration_to_boost_by_pid}
use hardware_voltage_interfa.Perfmgr.PowerHintSession.Report.{
  report_actual_work_duration, take_report, observe, boost, gpu_votes, apply_output, respond,
  count_report, uclamp_min_limits, next_min, clamp_cycles,
}

-- A vote for a GPU capacity is between 0 and the greatest of the profile.
unfoldable pub IsCapacity : Option ℤ → ℤ → Type 0
IsCapacity none cycles = ⊥
IsCapacity (some top) cycles = (min_ℤ (pos 0) top ≤ℤ cycles) × (cycles ≤ℤ max_ℤ (pos 0) top)

-- A call that is a vote is the default vote for `v` as the minimum, or for a capacity in range.
unfoldable pub IsVoteFor : {D : Type 0} → AdpfConfig D → ℤ → Call → Type 0
unfolding IsCapacity
IsVoteFor c v (vote_cpu kind r t d) = (kind ≡ cpu_vote_default) × (r ≡ from_min v)
IsVoteFor c v (vote_gpu kind cycles t d) =
    (kind ≡ gpu_capacity) × IsCapacity c.gpu_boost_capacity_max cycles
IsVoteFor c v _ = Unit

unfoldable pub AreVotesFor : {D : Type 0} → AdpfConfig D → ℤ → List Call → Type 0
unfolding IsVoteFor
AreVotesFor c v [] = Unit
AreVotesFor c v (x ∷ xs) = IsVoteFor c v x × AreVotesFor c v xs

AreVotesFor-append :
    {D : Type 0} (c : AdpfConfig D) (v : ℤ) (xs ys : List Call)
    → AreVotesFor c v xs
    → AreVotesFor c v ys
    → AreVotesFor c v (xs ++ ys)
unfolding AreVotesFor
AreVotesFor-append c v [] ys h k = k
AreVotesFor-append c v (x ∷ xs) ys h k = (h.0, AreVotesFor-append c v xs ys h.1 k)

next_min-within :
    (limits : ℕ × ℕ) (before output : ℤ)
    → (to_i32 (pos limits.0) ≤ℤ next_min limits before output)
      × (next_min limits before output ≤ℤ max_ℤ (to_i32 (pos limits.0)) (to_i32 (pos limits.1)))
unfolding next_min max_ℤ min_ℤ
next_min-within limits before output =
    within (to_i32 (pos limits.0)) (to_i32 (pos limits.1)) (before +ℤ to_i32 output)
  where
    within :
        (low high x : ℤ)
        → (low ≤ℤ max_ℤ low (min_ℤ high x)) × (max_ℤ low (min_ℤ high x) ≤ℤ max_ℤ low high)
    within low high x = ground arith

clamp_cycles-IsCapacity : (x top : ℤ) → IsCapacity (some top) (clamp_cycles x top)
unfolding IsCapacity clamp_cycles min_ℤ max_ℤ
clamp_cycles-IsCapacity x top = ground arith

module _ (F : Float) (N : Doubles F.Double) (G : Singles F.Double) (host : Host F.Double) where
  open F use {Double}

  gpu_votes-AreVotesFor :
      (c : AdpfConfig Double) (v : ℤ) (d : Report) (s : PowerHintSession Double)
      → AreVotesFor c v (gpu_votes F N G host c d s)
  unfolding AreVotesFor gpu_votes IsVoteFor
  gpu_votes-AreVotesFor c v d s = grind (arith, clamp_cycles-IsCapacity)

  observe-AreVotesFor :
      (c e : AdpfConfig Double) (v : ℤ) (ds : List Report) (s t : PowerHintSession Double)
      (calls : List Call)
      → observe F N host c ds s ≡ some (t, calls)
      → AreVotesFor e v calls
  unfolding AreVotesFor observe IsVoteFor
  observe-AreVotesFor c e v ds s t calls h = ground arith

  -- The session `t` after a report and its calls, for the profile `c`.
  pub record IsWithin (c : AdpfConfig Double) (t : PowerHintSession Double) (calls : List Call)
      : Type 0 where
    pub floor :
        to_i32 (pos (uclamp_min_limits F N c t.janky_level t.janky_frame_num).0)
        ≤ℤ t.descriptor.pid_control_variable
    pub ceiling :
        t.descriptor.pid_control_variable
        ≤ℤ max_ℤ
            (to_i32 (pos (uclamp_min_limits F N c t.janky_level t.janky_frame_num).0))
            (to_i32 (pos (uclamp_min_limits F N c t.janky_level t.janky_frame_num).1))
    pub votes : AreVotesFor c t.descriptor.pid_control_variable calls

  apply_output-IsWithin :
      (c : AdpfConfig Double) (d : Report) (output : ℤ) (s : PowerHintSession Double)
      → IsWithin c (apply_output F N G host c d output s).0 (apply_output F N G host c d output s).1
  unfolding apply_output update_pid_control_variable AreVotesFor IsVoteFor
  apply_output-IsWithin c d output s =
      let limits = uclamp_min_limits F N c s.janky_level s.janky_frame_num in
      let within = next_min-within limits s.descriptor.pid_control_variable output in
      record {
        floor = within.0;
        ceiling = within.1;
        votes =
            ((refl, refl), gpu_votes-AreVotesFor c _ d (apply_output F N G host c d output s).0);
      }

  boost-IsWithin :
      (c : AdpfConfig Double) (d : Report) (ds : List Report) (s t : PowerHintSession Double)
      (calls : List Call)
      → boost F N G host c d ds s ≡ some (t, calls)
      → IsWithin c t calls
  unfolding boost
  boost-IsWithin c d ds s t calls h =
      elim (Option-cases (convert_work_duration_to_boost_by_pid F N c (d ∷ ds) s)) [
        | inl e ↦ absurd (ground arith)
        | inr ((u, output), e) ↦
            let within = apply_output-IsWithin c (get_last_or d ds) output u in
            let same : apply_output F N G host c (get_last_or d ds) output u ≡ (t, calls) =
              ground arith in
            subst (λ x. IsWithin c x.0 x.1) same within
      ]

  respond-IsWithin :
      (c : AdpfConfig Double) (d : Report) (ds : List Report) (s t : PowerHintSession Double)
      (calls : List Call)
      → respond F N G host c d ds s ≡ some (t, calls)
      → IsWithin c t calls
  unfolding respond
  respond-IsWithin c d ds s t calls h = elim (Option-cases (observe F N host c (d ∷ ds) s)) [
    | inl e ↦ absurd (ground arith)
    | inr ((u, seen), e) ↦ elim (Option-cases (boost F N G host c d ds u)) [
      | inl e' ↦ absurd (ground arith)
      | inr ((v, votes), e') ↦
          let same : ◌≡◌ {A = PowerHintSession Double × List Call} (v, seen ++ votes) (t, calls) =
            ground arith in
          let within = boost-IsWithin c d ds u v votes e' in
          let all =
            AreVotesFor-append c v.descriptor.pid_control_variable seen votes
              (observe-AreVotesFor c c v.descriptor.pid_control_variable (d ∷ ds) s u seen e)
              within.votes in
          subst (λ x. IsWithin c x.0 x.1) same
            record { floor = within.floor; ceiling = within.ceiling; votes = all }
    ]
  ]

  -- A report that is answered ok under a profile with the controller on leaves the control variable
  -- at or above the floor of uclamp.min and at or below the greater of floor and ceiling, those of
  -- the profile for the janks that the session then knows. Of its calls, the votes are default
  -- votes with the control variable as the minimum and 1024 as the maximum, or votes for a GPU
  -- capacity between 0 and the greatest of the profile, which then has one.
  pub report-IsWithin :
      (ds : List Report) (s t : PowerHintSession Double) (calls : List Call)
      → (get_adpf_profile host s).pid_on ≡ true
      → report_actual_work_duration F N G host ds s ≡ some (t, calls, ok)
      → IsWithin (get_adpf_profile host s) t calls
  unfolding report_actual_work_duration take_report AreVotesFor IsVoteFor
  report-IsWithin [] s t calls on h = absurd (ground arith)
  report-IsWithin (d ∷ ds) s t calls on h =
      elim (Option-cases
        (respond F N G host (get_adpf_profile host s) d ds (count_report F N G host s))) [
          | inl e ↦ absurd (ground arith)
          | inr ((u, more), e) ↦
              let same : ◌≡◌ {A = PowerHintSession Double × List Call} (u, disable_boosts ∷ more)
                  (t, calls) =
                ground arith in
              let within =
                respond-IsWithin (get_adpf_profile host s) d ds (count_report F N G host s) u more
                  e in
              subst (λ x. IsWithin (get_adpf_profile host s) x.0 x.1) same
                (within_after u more within)
        ]
    where
      within_after :
          (u : PowerHintSession Double) (more : List Call)
          → IsWithin (get_adpf_profile host s) u more
          → IsWithin (get_adpf_profile host s) u (disable_boosts ∷ more)
      within_after u more w = record { floor = w.floor; ceiling = w.ceiling; votes = (tt, w.votes) }
