-- ===== src/Perfmgr/SessionMetrics.antt =====
-- power-libperfmgr/aidl/SessionMetrics.h and SessionMetrics.cpp: the frame statistics of a session.
-- The counters of a histogram and of frames are `uint32_t`, the time of all frames is a `uint64_t`.
pub mod Histograms
pub mod Totals
mod Tests
use hardware_voltage_interfa.Base.{
  ℕ, ◌+◌, ◌-◌, ◌%◌, Bool, true, false, leb, if◌then◌else◌, Option, none, some, List, [], ◌∷◌,
  get_or, set, replicate,
}
use hardware_voltage_interfa.Base.Int.{ℤ}
use hardware_voltage_interfa.Perfmgr.SessionRecords.{FrameBuckets, GameFrameMetrics}

pub data ScenarioType : Type 0 where
  default_scenario game_scenario : ScenarioType

pub data FrameTimelineType : Type 0 where
  surfaceflinger app : FrameTimelineType

-- `thermal_throt_stat` is a `ThrottlingSeverity` of the thermal HAL, by its number.
pub record SessionMetrics : Type 0 where
  pub uid : Option ℤ
  pub scenario_type : ScenarioType
  pub frame_timeline_type : FrameTimelineType
  pub metric_start_time : ℤ
  pub metric_end_time : ℤ
  pub metric_session_completed : Bool
  pub thermal_throt_stat : ℕ
  pub total_frame_number : ℕ
  pub app_frame_metrics : Option FrameBuckets
  pub game_frame_metrics : Option GameFrameMetrics

abbrev pub time_buckets_size : ℕ
time_buckets_size = 100

unfoldable pub reset_metric : ℤ → ℕ → ScenarioType → SessionMetrics → SessionMetrics
reset_metric now thermal scenario s = record s {
  scenario_type = scenario;
  thermal_throt_stat = thermal;
  metric_session_completed = false;
  total_frame_number = 0;
  metric_start_time = now;
  app_frame_metrics = none;
  game_frame_metrics = none;
}

abbrev pub empty_game_metrics : GameFrameMetrics
empty_game_metrics = record {
  frame_timing_ms = replicate time_buckets_size 0;
  frame_timing_delta_ms = replicate time_buckets_size 0;
  total_frame_time_ms = 0;
  num_of_frames = 0;
}

-- `if (!gameFrameMetrics)` of `addNewFrames`.
abbrev pub game_or_empty : Option GameFrameMetrics → GameFrameMetrics
game_or_empty none = empty_game_metrics
game_or_empty (some g) = g

-- `histogram[i]++`
unfoldable pub bump : ℕ → List ℕ → List ℕ
bump i h = set h i ((get_or h i 0 + 1) % 4294967296)

unfoldable pub add_timing : GameFrameMetrics → ℕ → GameFrameMetrics
add_timing g duration =
    if leb time_buckets_size duration
    then record g {
      frame_timing_ms = bump 99 g.frame_timing_ms;
      total_frame_time_ms =
          (g.total_frame_time_ms + (18446744073709551616 - (duration - time_buckets_size)))
          % 18446744073709551616;
    }
    else record g { frame_timing_ms = bump duration g.frame_timing_ms }

unfoldable pub add_timings : GameFrameMetrics → List ℕ → GameFrameMetrics
add_timings g [] = g
add_timings g (d ∷ ds) = add_timings (add_timing g d) ds

unfoldable pub add_delta : List ℕ → ℕ → List ℕ
add_delta h delta = if leb time_buckets_size delta then bump 99 h else bump delta h

unfoldable pub add_deltas : List ℕ → List ℕ → List ℕ
add_deltas h [] = h
add_deltas h (d ∷ ds) = add_deltas (add_delta h d) ds

-- The two sums before the loops.
abbrev pub add_totals : GameFrameMetrics → GameFrameMetrics → GameFrameMetrics
add_totals new g = record g {
  total_frame_time_ms = (g.total_frame_time_ms + new.total_frame_time_ms) % 18446744073709551616;
  num_of_frames = (g.num_of_frames + new.num_of_frames) % 4294967296;
}

-- `addNewFrames(const GameFrameMetrics &)`
unfoldable pub add_game_frames : GameFrameMetrics → SessionMetrics → SessionMetrics
add_game_frames new s =
    let g = add_timings (add_totals new (game_or_empty s.game_frame_metrics)) new.frame_timing_ms in
    record s {
      game_frame_metrics = some (record g {
        frame_timing_delta_ms = add_deltas g.frame_timing_delta_ms new.frame_timing_delta_ms;
      });
      total_frame_number = (s.total_frame_number + new.num_of_frames) % 4294967296;
    }

unfoldable pub add_up_new_frames : FrameBuckets → FrameBuckets → FrameBuckets
add_up_new_frames new b = record {
  total_num_of_frames = b.total_num_of_frames + new.total_num_of_frames;
  num_of_frames_17to25ms = b.num_of_frames_17to25ms + new.num_of_frames_17to25ms;
  num_of_frames_25to34ms = b.num_of_frames_25to34ms + new.num_of_frames_25to34ms;
  num_of_frames_34to67ms = b.num_of_frames_34to67ms + new.num_of_frames_34to67ms;
  num_of_frames_67to100ms = b.num_of_frames_67to100ms + new.num_of_frames_67to100ms;
  num_of_frames_over_100ms = b.num_of_frames_over_100ms + new.num_of_frames_over_100ms;
}

-- `addNewFrames(const FrameBuckets &)`
unfoldable pub add_app_frames : FrameBuckets → SessionMetrics → SessionMetrics
unfolding add_up_new_frames
add_app_frames new s = elim s.app_frame_metrics [
  | none ↦ record s {
    app_frame_metrics = some new;
    total_frame_number = (s.total_frame_number + new.total_num_of_frames) % 4294967296;
  }
  | some b ↦ record s {
    app_frame_metrics = some (add_up_new_frames new b);
    total_frame_number = (s.total_frame_number + new.total_num_of_frames) % 4294967296;
  }
]
