-- ===== src/Perfmgr/Votes/Tests.antt =====
-- The votes of a session at three moments.
use hardware_voltage_interfa.Base.{ℕ, ◌≡◌, refl, true, none, [], ◌∷◌}
use hardware_voltage_interfa.Base.Int.{pos, ◌+ℤ◌, max_ℤ, min_ℤ}
use hardware_voltage_interfa.Base.Dict.{contains}
use hardware_voltage_interfa.Perfmgr.Votes.{
  Votes, CpuVote, GpuVote, VoteRange, default_range, is_time_in_range, is_gpu_vote, confine,
  confine_all, get_uclamp_range,
}
use hardware_voltage_interfa.Perfmgr.Votes.Laws.{
  adds_cpu, removes, step, IsWellFormed, step-IsWellFormed, view, view-step,
}
use hardware_voltage_interfa.Perfmgr.Votes.Range.{IsTightest, get_uclamp_range-IsTightest}

abbrev lasting : ℕ → VoteRange
lasting n = record { active = true; start_time = pos 10; duration_ns = pos n }

abbrev cpu_vote : ℕ → ℕ → ℕ → CpuVote
cpu_vote n lo hi = record {
  timing = lasting n;
  uclamp_range = record { uclamp_min = pos lo; uclamp_max = pos hi };
}

abbrev gpu_vote : ℕ → ℕ → GpuVote
gpu_vote n c = record { timing = lasting n; capacity = pos c }

abbrev voted : Votes
voted = record {
  cpu_votes = (0, cpu_vote 20 100 800) ∷ (1, cpu_vote 5 300 1000) ∷ [];
  gpu_votes = (8, gpu_vote 20 40) ∷ [];
}

range_at_12 :
    get_uclamp_range voted default_range (pos 12)
    ≡ record { uclamp_min = pos 300; uclamp_max = pos 800 }
unfolding get_uclamp_range confine_all confine is_time_in_range max_ℤ min_ℤ ◌+ℤ◌
range_at_12 = refl

range_at_20 :
    get_uclamp_range voted default_range (pos 20)
    ≡ record { uclamp_min = pos 100; uclamp_max = pos 800 }
unfolding get_uclamp_range confine_all confine is_time_in_range max_ℤ min_ℤ ◌+ℤ◌
range_at_20 = refl

voted-IsWellFormed : IsWellFormed voted
unfolding is_gpu_vote contains
voted-IsWellFormed = record {
  cpu_distinct = (refl, (refl, tt));
  gpu_distinct = (refl, tt);
  cpu_ids = (refl, (refl, tt));
  gpu_ids = (refl, tt);
}

step-IsWellFormed_example : IsWellFormed (step (adds_cpu 5 (cpu_vote 1 2 3)) voted)
step-IsWellFormed_example = step-IsWellFormed (adds_cpu 5 (cpu_vote 1 2 3)) voted voted-IsWellFormed

view-step_example : view (step (removes 1) voted) 1 ≡ none
view-step_example = view-step (removes 1) voted 1 voted-IsWellFormed

get_uclamp_range-IsTightest_example :
    IsTightest default_range voted.cpu_votes
      (pos 12)
      (get_uclamp_range voted default_range (pos 12))
get_uclamp_range-IsTightest_example = get_uclamp_range-IsTightest voted default_range (pos 12)
