-- ===== src/Perfmgr/InteractionHandler/Tests.antt =====
-- A handler with the default settings.
use hardware_voltage_interfa.Base.{◌≡◌, refl, true, [], ◌∷◌}
use hardware_voltage_interfa.Base.Int.{ℤ, pos, ◌+ℤ◌, ◌-ℤ◌, ◌*ℤ◌, to_u32, to_i32, to_u64, div_ℤ}
use hardware_voltage_interfa.Perfmgr.InteractionHandler.{
  InteractionHandler, Settings, Timespec, perf_lock, abort_wait, waiting, uninitialized, looks,
  waits, new, init, exit, acquire, look, final_duration, is_covered, calc_timespec_diff_ms,
}
use hardware_voltage_interfa.Perfmgr.InteractionHandler.Hints.{
  IsReachable, created, inits, acquires, exits, IsBalanced, IsReachable-IsBalanced,
}

abbrev settings : Settings
settings = record {
  display_idle_support = true;
  min_duration_ms = 1400;
  max_duration_ms = 5650;
  duration_offset_ms = 650;
}

abbrev at : ℤ → Timespec
at sec = record { tv_sec = sec; tv_nsec = pos 0 }

-- An interaction of 3 seconds that began at second 10, while the thread waits.
abbrev boosted : InteractionHandler
boosted = record {
  state = waiting;
  duration_ms = pos 3000;
  last_timespec = at (pos 10);
  thread = waits;
}

covered_at_11 : (acquire settings (pos 1000) (at (pos 11)) boosted).1 ≡ []
unfolding acquire final_duration is_covered calc_timespec_diff_ms to_i32 to_u32 to_u64 div_ℤ ◌+ℤ◌
    ◌-ℤ◌ ◌*ℤ◌
covered_at_11 = refl

extended_at_12 : (acquire settings (pos 1000) (at (pos 12)) boosted).1 ≡ abort_wait ∷ []
unfolding acquire final_duration is_covered calc_timespec_diff_ms to_i32 to_u32 to_u64 div_ℤ ◌+ℤ◌
    ◌-ℤ◌ ◌*ℤ◌
extended_at_12 = refl

-- An interaction of 1.65 seconds that `Exit` cut off.
abbrev cut_off : InteractionHandler
cut_off = record {
  state = uninitialized;
  duration_ms = pos 1650;
  last_timespec = at (pos 10);
  thread = looks;
}

interrupted : IsReachable settings cut_off (abort_wait ∷ perf_lock ∷ []) 1
unfolding new init exit acquire look final_duration is_covered calc_timespec_diff_ms to_i32 to_u32
    to_u64 div_ℤ ◌+ℤ◌ ◌-ℤ◌ ◌*ℤ◌
interrupted = exits (acquires (pos 1000) (at (pos 10)) (inits true true (created (at (pos 0)))))

IsReachable-IsBalanced_example : IsBalanced cut_off (abort_wait ∷ perf_lock ∷ []) 1
IsReachable-IsBalanced_example =
    IsReachable-IsBalanced settings cut_off (abort_wait ∷ perf_lock ∷ []) 1 interrupted
