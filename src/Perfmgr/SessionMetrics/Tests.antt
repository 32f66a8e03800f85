-- ===== src/Perfmgr/SessionMetrics/Tests.antt =====
-- Metrics with some game frames.
use hardware_voltage_interfa.Base.{◌≡◌, refl, false, none, [], ◌∷◌, get_or, arith}
use hardware_voltage_interfa.Base.Int.{pos}
use hardware_voltage_interfa.Perfmgr.SessionRecords.{GameFrameMetrics, FrameBuckets}
use hardware_voltage_interfa.Perfmgr.SessionMetrics.{
  SessionMetrics, default_scenario, app, empty_game_metrics, game_or_empty, add_game_frames,
  add_timings, add_timing, bump,
}
use hardware_voltage_interfa.Perfmgr.SessionMetrics.Histograms.{
  IsAdded, add_game_frames-IsAdded, sum_of,
}

abbrev metrics : SessionMetrics
metrics = record {
  uid = none;
  scenario_type = default_scenario;
  frame_timeline_type = app;
  metric_start_time = pos 0;
  metric_end_time = pos 0;
  metric_session_completed = false;
  thermal_throt_stat = 0;
  total_frame_number = 0;
  app_frame_metrics = none;
  game_frame_metrics = none;
}

abbrev app_frames : FrameBuckets
app_frames = record {
  total_num_of_frames = 40;
  num_of_frames_17to25ms = 2;
  num_of_frames_25to34ms = 1;
  num_of_frames_34to67ms = 0;
  num_of_frames_67to100ms = 0;
  num_of_frames_over_100ms = 0;
}

abbrev frames : GameFrameMetrics
frames = record {
  frame_timing_ms = 16 ∷ 16 ∷ 130 ∷ [];
  frame_timing_delta_ms = 0 ∷ 114 ∷ [];
  total_frame_time_ms = 162;
  num_of_frames = 3;
}

time_of_frames :
    (game_or_empty (add_game_frames frames metrics).game_frame_metrics).total_frame_time_ms ≡ 132
unfolding add_game_frames add_timings add_timing
time_of_frames = refl

bucket_16 :
    get_or (game_or_empty (add_game_frames frames metrics).game_frame_metrics).frame_timing_ms 16 0
    ≡ 2
unfolding add_game_frames add_timings add_timing bump
bucket_16 = refl

add_game_frames-IsAdded_example :
    IsAdded 99 frames empty_game_metrics
      (game_or_empty (add_game_frames frames metrics).game_frame_metrics)
unfolding sum_of
add_game_frames-IsAdded_example =
    add_game_frames-IsAdded 99 frames metrics refl refl
      (omega arith, (omega arith, (omega arith, tt))) refl
