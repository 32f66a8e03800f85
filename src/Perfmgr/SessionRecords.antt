-- ===== src/Perfmgr/SessionRecords.antt =====
-- power-libperfmgr/aidl/SessionRecords.h and SessionRecords.cpp: the last reported cycle durations of
-- a session, in a ring of records with a queue of the descending maxima.
-- `double` is a parameter, `Float`. Sums and counters are taken not to overflow; the narrowing to
-- `int32_t` is written out. A record's index is never negative: `negsuc 0`, the code's -1, stands for
-- the latest index before the first record. The window's size is positive.
pub mod Ring
pub mod Maxima
pub mod Tracking
pub mod Window
pub mod Queries
mod Tests
use hardware_voltage_interfa.Base.{
  ℕ, zero, suc, ◌+◌, ◌-◌, ◌*◌, ◌%◌, Bool, true, false, not, ◌&&◌, ◌||◌, Option, none, some, List,
  [], ◌∷◌, ◌++◌, ltb, leb, ◌==◌, if◌then◌else◌, get_or, set, replicate, get_last_or, drop_last,
}
use hardware_voltage_interfa.Base.Int.{
  ℤ, pos, negsuc, pos_part, ◌+ℤ◌, ◌-ℤ◌, ltb_ℤ, leb_ℤ, div_ℤ, abs_ℤ, to_u32, to_i32,
}

-- What the code uses of `double`: conversion from integers, two operations, two comparisons, and the
-- literal 1.4.
pub record Float : Type 1 where
  pub Double : Type 0
  pub of_int : ℤ → Double
  pub mul : Double → Double → Double
  pub div : Double → Double → Double
  pub lt : Double → Double → Bool
  pub le : Double → Double → Bool
  pub one_point_four : Double

pub record WorkDuration : Type 0 where
  pub time_stamp_nanos : ℤ
  pub duration_nanos : ℤ

pub record FrameBuckets : Type 0 where
  pub total_num_of_frames : ℕ
  pub num_of_frames_17to25ms : ℕ
  pub num_of_frames_25to34ms : ℕ
  pub num_of_frames_34to67ms : ℕ
  pub num_of_frames_67to100ms : ℕ
  pub num_of_frames_over_100ms : ℕ

pub record GameFrameMetrics : Type 0 where
  pub frame_timing_ms : List ℕ
  pub frame_timing_delta_ms : List ℕ
  pub total_frame_time_ms : ℕ
  pub num_of_frames : ℕ

pub record FrameTimingMetrics : Type 0 where
  pub frames_in_buckets : FrameBuckets
  pub game_frame_metrics : GameFrameMetrics

pub record CycleRecord : Type 0 where
  pub start_interval_us : ℤ
  pub total_duration_us : ℤ
  pub is_missed_cycle : Bool
  pub is_fps_jitter : Bool

abbrev pub no_record : CycleRecord
no_record = record {
  start_interval_us = pos 0;
  total_duration_us = pos 0;
  is_missed_cycle = false;
  is_fps_jitter = false;
}

-- The queue is listed from its back, so its head is the newest index.
pub record SessionRecords (D : Type 0) : Type 0 where
  pub max_num_of_records : ℕ
  pub jank_check_time_factor : D
  pub records : List CycleRecord
  pub records_ind_queue : List ℕ
  pub avg_duration_us : ℤ
  pub last_start_time_ns : ℤ
  pub latest_record_index : ℤ
  pub pre_last_record_index : ℤ
  pub num_of_missed_cycles : ℤ
  pub num_of_frames : ℕ
  pub sum_of_durations_us : ℤ
  pub latest_start_interval_sum_us : ℤ
  pub num_of_frame_fps_jitters : ℤ
  pub added_frames_for_fps_check : ℕ

-- The constructor.
unfoldable pub new : {D : Type 0} → ℕ → D → SessionRecords D
new k factor = record {
  max_num_of_records = k;
  jank_check_time_factor = factor;
  records = replicate k no_record;
  records_ind_queue = [];
  avg_duration_us = pos 0;
  last_start_time_ns = pos 0;
  latest_record_index = negsuc 0;
  pre_last_record_index = negsuc 0;
  num_of_missed_cycles = pos 0;
  num_of_frames = 0;
  sum_of_durations_us = pos 0;
  latest_start_interval_sum_us = pos 0;
  num_of_frame_fps_jitters = pos 0;
  added_frames_for_fps_check = 0;
}

-- `mRecords[i]`; out of range, which C++ leaves undefined, it is a fresh record.
unfoldable pub record_at : List CycleRecord → ℤ → CycleRecord
record_at rs (pos i) = get_or rs i no_record
record_at rs (negsuc i) = no_record

-- `(mLatestRecordIndex + 1) % kMaxNumOfRecords`
unfoldable pub next_slot : ℤ → ℕ → ℕ
next_slot latest k = pos_part (latest +ℤ pos 1) % k

abbrev pub one_if : Bool → ℤ
one_if true = pos 1
one_if false = pos 0

-- `mRecordsIndQueue.front() == i`
unfoldable pub front_is : List ℕ → ℕ → Bool
front_is [] i = false
front_is (x ∷ q) i = get_last_or x q == i

unfoldable pub pop_front_if : ℕ → List ℕ → List ℕ
unfolding front_is
pop_front_if i q = if front_is q i then drop_last q else q

-- The body of `if (mNumOfFrames >= kMaxNumOfRecords)`: the oldest record leaves the statistics.
unfoldable pub remove_oldest : {D : Type 0} → SessionRecords D → SessionRecords D
remove_oldest s =
    let i = next_slot s.latest_record_index s.max_num_of_records in
    let oldest = get_or s.records i no_record in
    record s {
      sum_of_durations_us = s.sum_of_durations_us -ℤ oldest.total_duration_us;
      num_of_missed_cycles = s.num_of_missed_cycles -ℤ one_if oldest.is_missed_cycle;
      num_of_frame_fps_jitters = s.num_of_frame_fps_jitters -ℤ one_if oldest.is_fps_jitter;
      num_of_frames = s.num_of_frames - 1;
      records_ind_queue = pop_front_if i s.records_ind_queue;
    }

unfoldable pub make_room : {D : Type 0} → SessionRecords D → SessionRecords D
make_room s = if leb s.max_num_of_records s.num_of_frames then remove_oldest s else s

-- `while (!empty && mRecords[back].totalDurationUs <= total) pop_back()`
unfoldable pub pop_not_greater : List CycleRecord → ℤ → List ℕ → List ℕ
pop_not_greater rs total [] = []
pop_not_greater rs total (i ∷ q) =
    if leb_ℤ (get_or rs i no_record).total_duration_us total
    then pop_not_greater rs total q
    else i ∷ q

unfoldable pub update_frame_buckets : ℤ → Bool → FrameBuckets → FrameBuckets
update_frame_buckets us jank b =
    let c = record b { total_num_of_frames = b.total_num_of_frames + 1 } in
    if not jank || ltb_ℤ us (pos 17000)
    then c
    else if ltb_ℤ us (pos 25000)
    then record c { num_of_frames_17to25ms = b.num_of_frames_17to25ms + 1 }
    else if ltb_ℤ us (pos 34000)
    then record c { num_of_frames_25to34ms = b.num_of_frames_25to34ms + 1 }
    else if ltb_ℤ us (pos 67000)
    then record c { num_of_frames_34to67ms = b.num_of_frames_34to67ms + 1 }
    else if ltb_ℤ us (pos 100000)
    then record c { num_of_frames_67to100ms = b.num_of_frames_67to100ms + 1 }
    else record c { num_of_frames_over_100ms = b.num_of_frames_over_100ms + 1 }

-- `push_back` appends; the milliseconds are converted to `uint32_t`.
unfoldable pub update_game_metrics :
    {D : Type 0} → SessionRecords D → ℤ → GameFrameMetrics → GameFrameMetrics
unfolding record_at
update_game_metrics s us g =
    let ms = div_ℤ us 1000 in
    let before = (record_at s.records s.pre_last_record_index).start_interval_us in
    let delta = to_u32 (div_ℤ (abs_ℤ (us -ℤ before)) 1000) in
    if leb_ℤ us (pos 0) then g else record {
      frame_timing_ms = g.frame_timing_ms ++ to_u32 ms ∷ [];
      frame_timing_delta_ms =
          if ltb 2 s.num_of_frames
          then g.frame_timing_delta_ms ++ delta ∷ []
          else g.frame_timing_delta_ms;
      total_frame_time_ms = (g.total_frame_time_ms + pos_part ms) % 18446744073709551616;
      num_of_frames = (g.num_of_frames + 1) % 4294967296;
    }

module _ (F : Float) where
  open F use {Double, of_int, mul, div, lt, le, one_point_four}

  -- The block under "Track the number of frame FPS jitters": the state and `FPSJitter`.
  unfoldable pub check_fps : SessionRecords Double → ℕ → ℤ → Bool → SessionRecords Double × Bool
  unfolding record_at
  check_fps s slot us game =
      let sum = s.latest_start_interval_sum_us in
      let jitter = lt (div (mul one_point_four (of_int sum)) (of_int (pos 3))) (of_int us) in
      let behind = pos slot -ℤ pos 3 in
      let old = if ltb_ℤ behind (pos 0) then behind +ℤ pos s.max_num_of_records else behind in
      if not game
      then (
        record s { latest_start_interval_sum_us = pos 0; added_frames_for_fps_check = 0 },
        false,
      )
      else if ltb s.added_frames_for_fps_check 3
      then (
        if ltb_ℤ (pos 0) us
            then record s {
              latest_start_interval_sum_us = sum +ℤ us;
              added_frames_for_fps_check = s.added_frames_for_fps_check + 1;
            }
            else s,
        false,
      )
      else (
        record s {
          num_of_frame_fps_jitters = s.num_of_frame_fps_jitters +ℤ one_if jitter;
          latest_start_interval_sum_us = sum +ℤ (us -ℤ (record_at s.records old).start_interval_us);
        },
        jitter,
      )

  -- `totalDurationUs > (targetDurationNs / 1000) * kJankCheckTimeFactor`
  unfoldable pub cycle_missed : Double → ℤ → ℤ → Bool
  cycle_missed factor us target_ns = lt (mul (of_int (div_ℤ target_ns 1000)) factor) (of_int us)

  abbrev pub duration_us : WorkDuration → ℤ
  duration_us d = to_i32 (div_ℤ d.duration_nanos 1000)

  -- The write of the new record and what follows it, up to the end of the loop's body.
  unfoldable pub store_record : SessionRecords Double → ℕ → CycleRecord → SessionRecords Double
  store_record s slot r =
      let rs = set s.records slot r in
      let sum = s.sum_of_durations_us +ℤ r.total_duration_us in
      record s {
        records = rs;
        num_of_frames = s.num_of_frames + 1;
        num_of_missed_cycles = s.num_of_missed_cycles +ℤ one_if r.is_missed_cycle;
        records_ind_queue = slot ∷ pop_not_greater rs r.total_duration_us s.records_ind_queue;
        sum_of_durations_us = sum;
        avg_duration_us = to_i32 (div_ℤ sum (s.num_of_frames + 1));
      }

  -- The loop's body: the state before the write, the slot and the record to write.
  unfoldable pub prepare :
      SessionRecords Double → WorkDuration → ℤ → Bool → SessionRecords Double × ℕ × CycleRecord
  prepare s d target_ns game =
      let t = make_room s in
      let slot = next_slot t.latest_record_index t.max_num_of_records in
      let start = d.time_stamp_nanos -ℤ d.duration_nanos in
      let interval =
        if ltb 0 t.num_of_frames
        then to_i32 (div_ℤ (start -ℤ t.last_start_time_ns) 1000)
        else pos 0 in
      let u = record t {
        pre_last_record_index = t.latest_record_index;
        latest_record_index = pos slot;
        last_start_time_ns = start;
      } in
      let (v, jitter) = check_fps u slot interval game in
      (
        v,
        slot,
        record {
          start_interval_us = interval;
          total_duration_us = duration_us d;
          is_missed_cycle = cycle_missed v.jank_check_time_factor (duration_us d) target_ns;
          is_fps_jitter = jitter;
        },
      )

  unfoldable pub report_one :
      SessionRecords Double
      → FrameTimingMetrics
      → WorkDuration
      → ℤ
      → Bool
      → SessionRecords Double × FrameTimingMetrics
  report_one s m d target_ns game =
      let (t, slot, r) = prepare s d target_ns game in
      let u = store_record t slot r in
      (
        u,
        record {
          frames_in_buckets =
              update_frame_buckets r.total_duration_us r.is_missed_cycle m.frames_in_buckets;
          game_frame_metrics =
              if game
              then update_game_metrics u r.start_interval_us m.game_frame_metrics
              else m.game_frame_metrics;
        },
      )

  unfoldable pub add_reported_durations :
      SessionRecords Double
      → FrameTimingMetrics
      → List WorkDuration
      → ℤ
      → Bool
      → SessionRecords Double × FrameTimingMetrics
  add_reported_durations s m [] target_ns game = (s, m)
  add_reported_durations s m (d ∷ ds) target_ns game =
      let (t, n) = report_one s m d target_ns game in add_reported_durations t n ds target_ns game

  unfoldable pub is_low_frame_rate : SessionRecords Double → ℤ → Bool
  unfolding record_at
  is_low_frame_rate s threshold =
      let limit = div (of_int (pos 1000000)) (of_int threshold) in
      let back = λ (i : ℤ).
        if leb_ℤ i (pos 0) && leb_ℤ (pos 0) i
        then pos s.max_num_of_records -ℤ pos 1
        else i -ℤ pos 1 in
      let slow = λ (i : ℤ). le limit (of_int (record_at s.records i).start_interval_us) in
      let ind1 = s.latest_record_index in
      let ind2 = back ind1 in
      let ind3 = back ind2 in
      if leb 3 s.num_of_frames then slow ind1 && (slow ind2 && slow ind3) else false

unfoldable pub get_max_duration : {D : Type 0} → SessionRecords D → Option ℤ
get_max_duration s = elim s.records_ind_queue [
  | [] ↦ none
  | i ∷ q ↦ some (get_or s.records (get_last_or i q) no_record).total_duration_us
]

unfoldable pub get_avg_duration : {D : Type 0} → SessionRecords D → Option ℤ
get_avg_duration s = if leb s.num_of_frames 0 then none else some s.avg_duration_us

unfoldable pub reset_records : {D : Type 0} → SessionRecords D → SessionRecords D
reset_records s = record s {
  avg_duration_us = pos 0;
  last_start_time_ns = pos 0;
  latest_record_index = negsuc 0;
  num_of_missed_cycles = pos 0;
  num_of_frames = 0;
  sum_of_durations_us = pos 0;
  records_ind_queue = [];
}

unfoldable pub are_all_records_initialized : {D : Type 0} → SessionRecords D → Bool
are_all_records_initialized s = leb s.max_num_of_records s.num_of_frames

-- `a / b` on `int32_t`; `none` is the division by zero.
unfoldable pub div_by : ℤ → ℤ → Option ℤ
div_by a (pos zero) = none
div_by a (pos (suc k)) = some (div_ℤ a (suc k))
div_by a (negsuc k) = some (pos 0 -ℤ div_ℤ a (suc k))

unfoldable pub get_latest_fps : {D : Type 0} → SessionRecords D → Option ℤ
unfolding div_by
get_latest_fps s = div_by (pos 3000000) s.latest_start_interval_sum_us
