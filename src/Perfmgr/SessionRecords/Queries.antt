-- ===== src/Perfmgr/SessionRecords/Queries.antt =====
-- What the queries answer after the records have tracked a history, and after a reset.
use mathlib.Core.Path.{ap₂}
use Prim.Native.Nat.{min}
use hardware_voltage_interfa.Base.{
  ℕ, zero, suc, ◌+◌, ◌<◌, ◌≡◌, refl, sym, ap, ◌∙◌, Bool, List, [], ◌∷◌, map, Option, none, some,
  arith, length, take, length-replicate, length-map, length-take, leb,
}
use hardware_voltage_interfa.Base.Int.{ℤ, pos, ◌+ℤ◌, div_ℤ, to_i32, +ℤ_zero}
use hardware_voltage_interfa.Perfmgr.SessionRecords.{
  Float, WorkDuration, CycleRecord, SessionRecords, FrameTimingMetrics, no_record, new, duration_us,
  add_reported_durations, reset_records, get_max_duration, get_avg_duration,
  are_all_records_initialized,
}
use hardware_voltage_interfa.Perfmgr.SessionRecords.Maxima.{
  maxima, durations, front-maxima, maximum,
}
use hardware_voltage_interfa.Perfmgr.SessionRecords.Tracking.{
  Window, Tracks, sum, count, missed_flags,
}
use hardware_voltage_interfa.Perfmgr.SessionRecords.Window.{
  onto, verdict, add_reported_durations-Tracks,
}

-- A fresh object has no history.
pub new-Tracks : {D : Type 0} (k : ℕ) (factor : D) → 0 < k → Tracks (new k factor) (pos 0) []
unfolding new maxima ◌+ℤ◌
new-Tracks k factor h = record {
  positive = h;
  window =
      let none_yet : min k 0 ≡ 0 = omega arith in
      rw none_yet (record {
        size = length-replicate k no_record;
        frames = refl;
        known = omega arith;
        latest = refl;
        stored = tt;
        queue = refl;
        total = refl;
        missed = refl;
        jitters = refl;
      });
  average = λ e. absurd (e refl);
}

-- A reset leaves records without a history, ready for new reports; but the jitter counter keeps its
-- value, as a base that no later removal of a record takes back.
pub reset_records-Tracks :
    {D : Type 0} (s : SessionRecords D) (base : ℤ) (h : List CycleRecord)
    → Tracks s base h
    → Tracks (reset_records s) s.num_of_frame_fps_jitters []
unfolding reset_records maxima
reset_records-Tracks s base h t = record {
  positive = t.positive;
  window =
      let none_yet : min s.max_num_of_records 0 ≡ 0 = omega arith in
      rw none_yet (record {
        size = t.window.size;
        frames = refl;
        known = omega arith;
        latest = refl;
        stored = tt;
        queue = refl;
        total = refl;
        missed = refl;
        jitters = sym (+ℤ_zero _);
      });
  average = λ e. absurd (e refl);
}

-- The mean of a list of durations as the code rounds it.
abbrev pub mean : List ℤ → Option ℤ
mean [] = none
mean (x ∷ xs) = some (to_i32 (div_ℤ (sum (x ∷ xs)) (suc (length xs))))

map-take {ℓ κ} :
    {A : Type ℓ} {B : Type κ} (f : A → B) (n : ℕ) (xs : List A)
    → map f (take n xs) ≡ take n (map f xs)
map-take f zero xs = refl
map-take f (suc n) [] = refl
map-take f (suc n) (x ∷ xs) = ap (◌∷◌ (f x)) (map-take f n xs)

take_enough {ℓ} :
    {A : Type ℓ} (n k : ℕ) (xs : List A) → n ≡ min k (length xs) → take n xs ≡ take k xs
take_enough zero zero xs e = refl
take_enough zero (suc k) [] e = refl
take_enough zero (suc k) (x ∷ xs) e = absurd (omega arith)
take_enough (suc n) zero xs e = absurd (omega arith)
take_enough (suc n) (suc k) [] e = absurd (omega arith)
take_enough (suc n) (suc k) (x ∷ xs) e = ap (◌∷◌ x) (take_enough n k xs (omega arith))

in_window {ℓ} :
    {B : Type ℓ} (f : CycleRecord → B) (k : ℕ) (h : List CycleRecord)
    → map f (take (min k (length h)) h) ≡ take k (map f h)
in_window f k h =
    map-take f (min k (length h)) h
    ∙ ap (λ t. t) (take_enough (min k (length h)) k (map f h) (rw (length-map h f)))

module _ {D : Type 0} (s : SessionRecords D) (base : ℤ) where
  get_max_duration-Window :
      (n : ℕ) (h : List CycleRecord)
      → Window s base n h
      → get_max_duration s ≡ maximum (durations (take n h))
  unfolding maxima get_max_duration
  get_max_duration-Window zero h w = rw (w.queue, get_max_duration)
  get_max_duration-Window (suc n) [] w = absurd (omega (arith, w.known))
  get_max_duration-Window (suc n) (x ∷ h) w =
      rw (w.queue, get_max_duration)
        (ap some (front-maxima s.records s.max_num_of_records n x h w.stored))

  get_avg_duration-Window :
      (n : ℕ) (h : List CycleRecord)
      → Window s base n h
      → (0 < n → s.avg_duration_us ≡ to_i32 (div_ℤ s.sum_of_durations_us s.num_of_frames))
      → get_avg_duration s ≡ mean (durations (take n h))
  unfolding get_avg_duration
  get_avg_duration-Window zero h w avg = rw w.frames
  get_avg_duration-Window (suc n) [] w avg = absurd (omega (arith, w.known))
  get_avg_duration-Window (suc n) (x ∷ h) w avg =
      let enough : length (durations (take n h)) ≡ n =
        length-map (take n h) (λ r. r.total_duration_us)
        ∙ length-take n h (omega (arith, w.known)) in
      rw (avg (omega arith), w.frames, w.total, enough) (ground arith)

  -- The queries answer for the last `kMaxNumOfRecords` records of the history: the longest duration,
  -- the mean, how many there are and how many missed their target.
  pub queries-Tracks :
      (h : List CycleRecord)
      → Tracks s base h
      → let us = take s.max_num_of_records (durations h) in
        (get_max_duration s ≡ maximum us)
        × (get_avg_duration s ≡ mean us)
        × (s.num_of_frames ≡ min s.max_num_of_records (length h))
        × (s.num_of_missed_cycles ≡ count (take s.max_num_of_records (missed_flags h)))
        × (are_all_records_initialized s ≡ leb s.max_num_of_records (length h))
  unfolding are_all_records_initialized
  queries-Tracks h t = (
    rw (← in_window (λ r. r.total_duration_us) s.max_num_of_records h)
        (get_max_duration-Window (min s.max_num_of_records (length h)) h t.window),
    rw (← in_window (λ r. r.total_duration_us) s.max_num_of_records h) (
        get_avg_duration-Window (min s.max_num_of_records (length h)) h t.window
          (λ some_frames. t.average (λ e. omega (arith, ap length e)))),
    t.window.frames,
    t.window.missed ∙ ap count (in_window (λ r. r.is_missed_cycle) s.max_num_of_records h),
    ground (arith, t.window.frames),
  )

length-onto {ℓ κ} :
    {A : Type ℓ} {B : Type κ} (f : A → B) (xs : List A) (acc : List B)
    → length (onto f xs acc) ≡ length xs + length acc
length-onto f [] acc = omega arith
length-onto f (x ∷ xs) acc = omega (arith, length-onto f xs (f x ∷ acc))

-- A new object that is given a list of reports answers for the last `k` of them: the longest of their
-- durations, the mean as the code rounds it, their number, and how many of them exceed the target
-- times the factor.
pub add_reported_durations-new :
    (F : Float) (k : ℕ) (factor : F.Double) (m : FrameTimingMetrics) (ds : List WorkDuration)
    (target_ns : ℤ) (game : Bool)
    → 0 < k
    → let s = (add_reported_durations F (new k factor) m ds target_ns game).0 in
      let us = take k (onto (duration_us F) ds []) in
      (get_max_duration s ≡ maximum us)
      × (get_avg_duration s ≡ mean us)
      × (s.num_of_frames ≡ min k (length ds))
      × (s.num_of_missed_cycles ≡ count (take k (onto (verdict F factor target_ns) ds [])))
unfolding new
add_reported_durations-new F k factor m ds target_ns game pos_k =
    let (h, t, (us, missed), max) =
      add_reported_durations-Tracks F (new k factor) m ds target_ns game (pos 0) []
        (new-Tracks k factor pos_k) in
    let (longest, avg, frames, misses, _) =
      queries-Tracks (add_reported_durations F (new k factor) m ds target_ns game).0 (pos 0) h t in
    let told : length h ≡ length ds = omega (
      arith,
      length-map h (λ r. r.total_duration_us),
      ap length us,
      length-onto (duration_us F) ds [],
    ) in
    (
      longest ∙ ap₂ (λ n xs. maximum (take n xs)) max us,
      avg ∙ ap₂ (λ n xs. mean (take n xs)) max us,
      frames ∙ ap₂ min max told,
      misses ∙ ap₂ (λ n xs. count (take n xs)) max missed,
    )
