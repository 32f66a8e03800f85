-- ===== src/Perfmgr/SessionRecords/Tests.antt =====
-- The records on concrete reports, with tenths for `double`.
use hardware_voltage_interfa.Base.{ℕ, zero, suc, ◌≡◌, refl, false, List, [], ◌∷◌, some, arith}
use hardware_voltage_interfa.Base.Int.{
  ℤ, pos, negsuc, ltb_ℤ, leb_ℤ, div_ℤ, to_i32, ◌*ℤ◌, ◌+ℤ◌, ◌-ℤ◌,
}
use hardware_voltage_interfa.Perfmgr.SessionRecords.{
  Float, WorkDuration, FrameTimingMetrics, SessionRecords, new, add_reported_durations,
  get_max_duration, get_avg_duration, report_one, prepare, make_room, remove_oldest, next_slot,
  pop_front_if, check_fps, cycle_missed, store_record, pop_not_greater, update_frame_buckets,
}
use hardware_voltage_interfa.Perfmgr.SessionRecords.Maxima.{maximum}
use hardware_voltage_interfa.Perfmgr.SessionRecords.Tracking.{Tracks, count}
use hardware_voltage_interfa.Perfmgr.SessionRecords.Window.{report_one-Tracks}
use hardware_voltage_interfa.Perfmgr.SessionRecords.Queries.{
  new-Tracks, add_reported_durations-new, mean,
}

abbrev quotient : ℤ → ℤ → ℤ
quotient a (pos zero) = pos 0
quotient a (pos (suc k)) = div_ℤ (a *ℤ pos 10) (suc k)
quotient a (negsuc k) = pos 0

abbrev tenths : Float
tenths = record {
  Double = ℤ;
  of_int = λ z. z *ℤ pos 10;
  mul = λ a b. div_ℤ (a *ℤ b) 10;
  div = quotient;
  lt = ltb_ℤ;
  le = leb_ℤ;
  one_point_four = pos 14;
}

abbrev no_metrics : FrameTimingMetrics
no_metrics = record {
  frames_in_buckets = record {
    total_num_of_frames = 0;
    num_of_frames_17to25ms = 0;
    num_of_frames_25to34ms = 0;
    num_of_frames_34to67ms = 0;
    num_of_frames_67to100ms = 0;
    num_of_frames_over_100ms = 0;
  };
  game_frame_metrics = record {
    frame_timing_ms = [];
    frame_timing_delta_ms = [];
    total_frame_time_ms = 0;
    num_of_frames = 0;
  };
}

abbrev took : ℕ → ℕ → WorkDuration
took at ns = record { time_stamp_nanos = pos at; duration_nanos = pos ns }

-- Durations of 9, 30, 12 and 20 ms, against a target of 16 ms.
abbrev reports : List WorkDuration
reports =
    took 10000000 9000000
    ∷ took 42000000 30000000
    ∷ took 60000000 12000000
    ∷ took 90000000 20000000
    ∷ []

abbrev window_of_two : SessionRecords ℤ
window_of_two =
    (add_reported_durations tenths (new 2 (pos 15)) no_metrics reports (pos 16000000) false).0

window_of_two_max : get_max_duration window_of_two ≡ some (pos 20000)
unfolding new add_reported_durations report_one prepare make_room remove_oldest next_slot
    pop_front_if check_fps cycle_missed store_record pop_not_greater get_max_duration
    update_frame_buckets to_i32 div_ℤ ◌*ℤ◌ ◌+ℤ◌ ◌-ℤ◌
window_of_two_max = refl

add_reported_durations-new_example :
    let us = pos 20000 ∷ pos 12000 ∷ [] in
    (get_max_duration window_of_two ≡ maximum us)
    × (get_avg_duration window_of_two ≡ mean us)
    × (window_of_two.num_of_frames ≡ 2)
    × (window_of_two.num_of_missed_cycles ≡ count (false ∷ false ∷ []))
unfolding to_i32 div_ℤ cycle_missed ◌*ℤ◌
add_reported_durations-new_example =
    add_reported_durations-new tenths 2 (pos 15) no_metrics reports (pos 16000000) false
      (omega arith)

report_one-Tracks_example :
    Tracks
      (report_one tenths (new 2 (pos 15)) no_metrics (took 10000000 9000000) (pos 16000000) false).0
      (pos 0)
      ((prepare tenths (new 2 (pos 15)) (took 10000000 9000000) (pos 16000000) false).2 ∷ [])
report_one-Tracks_example =
    report_one-Tracks tenths (new 2 (pos 15)) no_metrics (took 10000000 9000000) (pos 16000000)
      false (pos 0) [] (new-Tracks 2 (pos 15) (omega arith))
