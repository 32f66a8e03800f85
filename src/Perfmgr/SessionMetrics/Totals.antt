-- ===== src/Perfmgr/SessionMetrics/Totals.antt =====
-- The number of frames of a session, against those of its two kinds.
use hardware_voltage_interfa.Base.{
  ℕ, ◌+◌, ◌%◌, ◌≡◌, refl, ◌∙◌, Option, none, some, List, [], ◌∷◌, arith,
}
use hardware_voltage_interfa.Base.Int.{ℤ}
use hardware_voltage_interfa.Perfmgr.SessionRecords.{FrameBuckets, GameFrameMetrics}
use hardware_voltage_interfa.Perfmgr.SessionMetrics.{
  SessionMetrics, ScenarioType, reset_metric, add_game_frames, add_app_frames, add_up_new_frames,
  add_timing, add_timings, add_totals, game_or_empty,
}

pub data Update : Type 0 where
  game_frames : GameFrameMetrics → Update
  app_frames_of : FrameBuckets → Update
  resets : ℤ → ℕ → ScenarioType → Update

unfoldable pub update_metrics : Update → SessionMetrics → SessionMetrics
update_metrics (game_frames new) s = add_game_frames new s
update_metrics (app_frames_of new) s = add_app_frames new s
update_metrics (resets now thermal scenario) s = reset_metric now thermal scenario s

unfoldable pub update_all : List Update → SessionMetrics → SessionMetrics
update_all [] s = s
update_all (u ∷ us) s = update_all us (update_metrics u s)

abbrev pub app_total : Option FrameBuckets → ℕ
app_total none = 0
app_total (some b) = b.total_num_of_frames

abbrev pub IsTotalled : SessionMetrics → Type 0
IsTotalled s =
    s.total_frame_number % 4294967296
    ≡ (app_total s.app_frame_metrics + (game_or_empty s.game_frame_metrics).num_of_frames)
      % 4294967296

add_timings_frames :
    (g : GameFrameMetrics) (ds : List ℕ) → (add_timings g ds).num_of_frames ≡ g.num_of_frames
unfolding add_timings add_timing
add_timings_frames g [] = refl
add_timings_frames g (d ∷ ds) = add_timings_frames (add_timing g d) ds ∙ ground arith

add_game_frames-IsTotalled :
    (new : GameFrameMetrics) (s : SessionMetrics)
    → IsTotalled s
    → IsTotalled (add_game_frames new s)
unfolding add_game_frames
add_game_frames-IsTotalled new s h =
    let g = game_or_empty s.game_frame_metrics in
    let e = add_timings_frames (add_totals new g) new.frame_timing_ms in omega arith

add_app_frames-IsTotalled :
    (new : FrameBuckets) (s : SessionMetrics) → IsTotalled s → IsTotalled (add_app_frames new s)
unfolding add_app_frames add_up_new_frames
add_app_frames-IsTotalled new s h = ground arith

update_metrics-IsTotalled :
    (u : Update) (s : SessionMetrics) → IsTotalled s → IsTotalled (update_metrics u s)
unfolding update_metrics reset_metric
update_metrics-IsTotalled (game_frames new) s h = add_game_frames-IsTotalled new s h
update_metrics-IsTotalled (app_frames_of new) s h = add_app_frames-IsTotalled new s h
update_metrics-IsTotalled (resets now thermal scenario) s h = refl

-- Whatever frames of either kind are added and whenever the metrics are reset, the total number of
-- frames stays, modulo 2^32, the number of app frames plus the number of game frames.
pub update_all-IsTotalled :
    (us : List Update) (s : SessionMetrics) → IsTotalled s → IsTotalled (update_all us s)
unfolding update_all
update_all-IsTotalled [] s h = h
update_all-IsTotalled (u ∷ us) s h =
    update_all-IsTotalled us (update_metrics u s) (update_metrics-IsTotalled u s h)
