-- ===== src/Perfmgr/SessionRecords/Tracking.antt =====
-- What the fields of the session's records say of its history: the records reported since the last
-- reset, the newest first.
use Prim.Native.Nat.{min}
use native.Mathlib.Nat.{mod-add-mod}
use hardware_voltage_interfa.Base.{
  ℕ, zero, suc, ◌-◌, ◌%◌, ◌≤◌, ◌<◌, ◌≡◌, ◌≢◌, refl, inl, inr, Bool, List, [], ◌∷◌, map, none, arith,
  get_or, length, take, Bool-cases, leb,
}
use hardware_voltage_interfa.Base.Int.{
  ℤ, pos, negsuc, ◌+ℤ◌, div_ℤ, to_i32, +ℤ_comm, +ℤ_assoc, +ℤ-sub, +ℤ_zero,
}
use hardware_voltage_interfa.Perfmgr.SessionRecords.{
  Float, WorkDuration, CycleRecord, SessionRecords, no_record, next_slot, one_if, remove_oldest,
  make_room, check_fps, cycle_missed, duration_us, prepare,
}
use hardware_voltage_interfa.Perfmgr.SessionRecords.Ring.{Stored, Stored-pred, oldest-Stored}
use hardware_voltage_interfa.Perfmgr.SessionRecords.Maxima.{
  maxima, slots, durations, pop_front-maxima,
}

abbrev pub sum : List ℤ → ℤ
sum [] = pos 0
sum (x ∷ xs) = x +ℤ sum xs

abbrev pub count : List Bool → ℤ
count [] = pos 0
count (b ∷ bs) = one_if b +ℤ count bs

abbrev pub missed_flags : List CycleRecord → List Bool
missed_flags = map (λ r. r.is_missed_cycle)

abbrev pub jitter_flags : List CycleRecord → List Bool
jitter_flags = map (λ r. r.is_fps_jitter)

-- `mLatestRecordIndex` after `t` records.
abbrev pub latest_index : ℕ → ℕ → ℤ
latest_index zero k = negsuc 0
latest_index (suc t) k = pos (t % k)

-- The fields describe the first `n` records of the history `h`; `base` is the number of jitters that
-- the counter held when the history began.
pub record Window {D : Type 0} (s : SessionRecords D) (base : ℤ) (n : ℕ) (h : List CycleRecord)
    : Type 0 where
  pub size : length s.records ≡ s.max_num_of_records
  pub frames : s.num_of_frames ≡ n
  pub known : n ≤ length h
  pub latest : s.latest_record_index ≡ latest_index (length h) s.max_num_of_records
  pub stored : Stored s.records s.max_num_of_records n h
  pub queue : s.records_ind_queue ≡ slots s.max_num_of_records (maxima n none h)
  pub total : s.sum_of_durations_us ≡ sum (durations (take n h))
  pub missed : s.num_of_missed_cycles ≡ count (missed_flags (take n h))
  pub jitters : s.num_of_frame_fps_jitters ≡ base +ℤ count (jitter_flags (take n h))

sum-take-suc :
    (n : ℕ) (h : List CycleRecord)
    → suc n ≤ length h
    → sum (durations (take (suc n) h))
      ≡ sum (durations (take n h)) +ℤ (get_or h n no_record).total_duration_us
sum-take-suc n [] le = absurd (omega arith)
sum-take-suc zero (x ∷ h) le = +ℤ_comm _ _
sum-take-suc (suc n) (x ∷ h) le = rw (sum-take-suc n h (omega arith), +ℤ_assoc)

count-take-suc :
    (f : CycleRecord → Bool) (n : ℕ) (h : List CycleRecord)
    → suc n ≤ length h
    → count (map f (take (suc n) h)) ≡ count (map f (take n h)) +ℤ one_if (f (get_or h n no_record))
count-take-suc f n [] le = absurd (omega arith)
count-take-suc f zero (x ∷ h) le = +ℤ_comm _ _
count-take-suc f (suc n) (x ∷ h) le = rw (count-take-suc f n h (omega arith), +ℤ_assoc)

pub next_slot-latest_index : (t k : ℕ) → next_slot (latest_index t k) k ≡ t % k
unfolding next_slot ◌+ℤ◌
next_slot-latest_index zero k = refl
next_slot-latest_index (suc t) k = ground (arith, mod-add-mod t k 1)

module _ {D : Type 0} (s : SessionRecords D) (base : ℤ) (m : ℕ) (h : List CycleRecord) where
  oldest_slot :
      s.max_num_of_records ≡ suc m
      → Window s base (suc m) h
      → next_slot s.latest_record_index s.max_num_of_records ≡ length h % suc m
  oldest_slot full w = cc (w.latest, full, next_slot-latest_index (length h) s.max_num_of_records)

  oldest :
      s.max_num_of_records ≡ suc m
      → Window s base (suc m) h
      → get_or s.records (next_slot s.latest_record_index s.max_num_of_records) no_record
        ≡ get_or h m no_record
  oldest full w =
      rw (oldest_slot full w) (oldest-Stored s.records m h (rw full at w.stored) w.known)

  remove_oldest-Window :
      s.max_num_of_records ≡ suc m → Window s base (suc m) h → Window (remove_oldest s) base m h
  unfolding remove_oldest
  remove_oldest-Window full w = record {
    size = w.size;
    frames = omega (arith, w.frames);
    known = omega (arith, w.known);
    latest = w.latest;
    stored = Stored-pred s.records s.max_num_of_records m h w.stored;
    queue = cc (w.queue, full, oldest_slot full w, pop_front-maxima m h w.known);
    total = rw (oldest full w, w.total, sum-take-suc m h w.known) (+ℤ-sub _ _);
    missed =
        rw (oldest full w, w.missed, count-take-suc (λ r. r.is_missed_cycle) m h w.known)
          (+ℤ-sub _ _);
    jitters =
        rw (oldest full w, w.jitters, count-take-suc (λ r. r.is_fps_jitter) m h w.known, ← +ℤ_assoc)
          (+ℤ-sub _ _);
  }

-- Between two reports the window holds as many records as there are, up to the ring's size.
pub record Tracks {D : Type 0} (s : SessionRecords D) (base : ℤ) (h : List CycleRecord)
    : Type 0 where
  pub positive : 0 < s.max_num_of_records
  pub window : Window s base (min s.max_num_of_records (length h)) h
  pub average : h ≢ [] → s.avg_duration_us ≡ to_i32 (div_ℤ s.sum_of_durations_us s.num_of_frames)

module _ {D : Type 0} (s : SessionRecords D) (base : ℤ) (h : List CycleRecord) where
  pub make_room-Window :
      Tracks s base h → Window (make_room s) base (min (s.max_num_of_records - 1) (length h)) h
  unfolding make_room
  make_room-Window t = elim (Bool-cases (leb s.max_num_of_records s.num_of_frames)) [
    | inl full ↦
        let m = s.max_num_of_records - 1 in
        let e : s.max_num_of_records ≡ suc m = omega (arith, t.positive) in
        let le : s.max_num_of_records ≤ min s.max_num_of_records (length h) =
          rw (← t.window.frames) (ground arith) in
        let all : min s.max_num_of_records (length h) ≡ suc m = omega (arith, t.positive) in
        let rest : min m (length h) ≡ m = omega (arith, t.positive) in
        rw (full, rest) (remove_oldest-Window s base m h e (rw all at t.window))
    | inr room ↦
        let lt : min s.max_num_of_records (length h) < s.max_num_of_records =
          rw (← t.window.frames) (ground arith) in
        let same : min (s.max_num_of_records - 1) (length h) ≡ min s.max_num_of_records (length h) =
          omega (arith, t.positive) in
        rw (room, same) t.window
  ]

  pub make_room-max : (make_room s).max_num_of_records ≡ s.max_num_of_records
  unfolding make_room remove_oldest
  make_room-max = ground arith

  pub make_room-factor : (make_room s).jank_check_time_factor ≡ s.jank_check_time_factor
  unfolding make_room remove_oldest
  make_room-factor = ground arith

module _ (F : Float) where
  open F use {Double}

  -- What the loop's body has computed when it writes the record `r` to a slot.
  pub record IsPrepared (s : SessionRecords Double) (d : WorkDuration) (target_ns : ℤ)
      (v : SessionRecords Double) (slot : ℕ) (r : CycleRecord) : Type 0 where
    pub same_max : v.max_num_of_records ≡ (make_room s).max_num_of_records
    pub same_factor : v.jank_check_time_factor ≡ (make_room s).jank_check_time_factor
    pub same_records : v.records ≡ (make_room s).records
    pub same_queue : v.records_ind_queue ≡ (make_room s).records_ind_queue
    pub same_frames : v.num_of_frames ≡ (make_room s).num_of_frames
    pub same_missed : v.num_of_missed_cycles ≡ (make_room s).num_of_missed_cycles
    pub same_sum : v.sum_of_durations_us ≡ (make_room s).sum_of_durations_us
    pub jitter_counted :
        v.num_of_frame_fps_jitters
        ≡ (make_room s).num_of_frame_fps_jitters +ℤ one_if r.is_fps_jitter
    pub slot_next :
        slot ≡ next_slot (make_room s).latest_record_index (make_room s).max_num_of_records
    pub latest_slot : v.latest_record_index ≡ pos slot
    pub duration : r.total_duration_us ≡ duration_us F d
    pub missed_test :
        r.is_missed_cycle ≡ cycle_missed F v.jank_check_time_factor (duration_us F d) target_ns

  pub prepare-IsPrepared :
      (s : SessionRecords Double) (d : WorkDuration) (target_ns : ℤ) (game : Bool)
      → let (v, slot, r) = prepare F s d target_ns game in IsPrepared s d target_ns v slot r
  unfolding prepare check_fps
  prepare-IsPrepared s d target_ns game =
      ground (arith, +ℤ_zero (make_room s).num_of_frame_fps_jitters)
