-- ===== src/Perfmgr/SessionRecords/Window.antt =====
-- One round of `addReportedDurations`, and the whole loop, on the history of records.
use Prim.Native.Nat.{min}
use native.Mathlib.Nat.{mod-lt}
use hardware_voltage_interfa.Base.{
  ℕ, suc, ◌-◌, ◌%◌, ◌<◌, ◌≡◌, refl, sym, ap, ◌∙◌, Bool, List, [], ◌∷◌, none, some, arith, get_or,
  set, length, length-set, get_or-set_self,
}
use hardware_voltage_interfa.Base.Int.{ℤ, pos, ◌+ℤ◌, +ℤ_comm, +ℤ_assoc}
use hardware_voltage_interfa.Perfmgr.SessionRecords.{
  Float, WorkDuration, CycleRecord, SessionRecords, FrameTimingMetrics, no_record, next_slot,
  make_room, cycle_missed, duration_us, store_record, prepare, report_one, add_reported_durations,
  pop_not_greater,
}
use hardware_voltage_interfa.Perfmgr.SessionRecords.Ring.{Stored, set-Stored}
use hardware_voltage_interfa.Perfmgr.SessionRecords.Maxima.{maxima, slots, durations, pop_maxima}
use hardware_voltage_interfa.Perfmgr.SessionRecords.Tracking.{
  Window, Tracks, IsPrepared, missed_flags, next_slot-latest_index, make_room-Window, make_room-max,
  make_room-factor, prepare-IsPrepared,
}

module _ (F : Float) (s : SessionRecords F.Double) (d : WorkDuration) (target_ns : ℤ)
    (v : SessionRecords F.Double) (slot : ℕ) (r : CycleRecord)
    (p : IsPrepared F s d target_ns v slot r) (base : ℤ) (n : ℕ) (h : List CycleRecord)
    (w : Window (make_room s) base n h) (room : n < v.max_num_of_records) where
  slot_place : slot ≡ length h % v.max_num_of_records
  slot_place =
      p.slot_next
      ∙ ap (λ i. next_slot i (make_room s).max_num_of_records) w.latest
      ∙ next_slot-latest_index (length h) (make_room s).max_num_of_records
      ∙ ap (λ k. length h % k) (sym p.same_max)

  kept : Stored (set v.records slot r) v.max_num_of_records n h
  kept =
      rw (slot_place, p.same_records, p.same_max)
        (set-Stored (make_room s).records (make_room s).max_num_of_records n (length h) h r
          (omega arith) (rw (← p.same_max) (omega arith)) w.stored)

  written : get_or (set v.records slot r) (length h % v.max_num_of_records) no_record ≡ r
  written = rw (← slot_place) (
      get_or-set_self v.records slot r no_record
        (rw (slot_place, p.same_records, w.size, ← p.same_max) (mod-lt (length h) (omega arith))))

  popped :
      pop_not_greater (set v.records slot r) r.total_duration_us v.records_ind_queue
      ≡ slots v.max_num_of_records (maxima n (some r.total_duration_us) h)
  popped =
      rw (p.same_queue, w.queue, ← p.same_max)
        (pop_maxima (set v.records slot r) v.max_num_of_records n none r.total_duration_us h kept)

  pub store_record-Window : Window (store_record F v slot r) base (suc n) (r ∷ h)
  unfolding store_record maxima
  store_record-Window = record {
    size = length-set v.records slot r ∙ ap length p.same_records ∙ w.size ∙ sym p.same_max;
    frames = omega (arith, p.same_frames, w.frames);
    known = omega (arith, w.known);
    latest = p.latest_slot ∙ ap pos slot_place;
    stored = (written, kept);
    queue = rw (popped, slot_place);
    total = rw (p.same_sum, w.total) (+ℤ_comm _ _);
    missed = rw (p.same_missed, w.missed) (+ℤ_comm _ _);
    jitters = rw (p.jitter_counted, w.jitters, +ℤ_assoc) (ap (◌+ℤ◌ base) (+ℤ_comm _ _));
  }

store_record-max :
    (F : Float) (v : SessionRecords F.Double) (slot : ℕ) (r : CycleRecord)
    → (store_record F v slot r).max_num_of_records ≡ v.max_num_of_records
unfolding store_record
store_record-max F v slot r = refl

-- A reported duration becomes the newest record of the history.
pub report_one-Tracks :
    (F : Float) (s : SessionRecords F.Double) (m : FrameTimingMetrics) (d : WorkDuration)
    (target_ns : ℤ) (game : Bool) (base : ℤ) (h : List CycleRecord)
    → Tracks s base h
    → Tracks (report_one F s m d target_ns game).0 base ((prepare F s d target_ns game).2 ∷ h)
unfolding report_one
report_one-Tracks F s m d target_ns game base h t =
    let (v, slot, r) = prepare F s d target_ns game in
    let p : IsPrepared F s d target_ns v slot r = prepare-IsPrepared F s d target_ns game in
    let k : v.max_num_of_records ≡ s.max_num_of_records = p.same_max ∙ make_room-max s base h in
    let n = min (s.max_num_of_records - 1) (length h) in
    let size : (store_record F v slot r).max_num_of_records ≡ s.max_num_of_records =
      store_record-max F v slot r ∙ k in
    let grown : min (store_record F v slot r).max_num_of_records (suc (length h)) ≡ suc n =
      omega (arith, t.positive, size) in
    record {
      positive = omega (arith, size, t.positive);
      window = rw grown (
          store_record-Window F s d target_ns v slot r p base n h (make_room-Window s base h t)
            (omega (arith, t.positive, k)));
      average = λ _. unfold store_record in refl;
    }

-- The results for a list of reports, the last one first, before those of an earlier history.
abbrev pub onto {ℓ κ} : {A : Type ℓ} {B : Type κ} → (A → B) → List A → List B → List B
onto f [] acc = acc
onto f (x ∷ xs) acc = onto f xs (f x ∷ acc)

-- Whether a report misses its target.
abbrev pub verdict : (F : Float) → F.Double → ℤ → WorkDuration → Bool
verdict F factor target_ns d = cycle_missed F factor (duration_us F d) target_ns

abbrev pub History :
    (F : Float) → F.Double → ℤ → List WorkDuration → List CycleRecord → List CycleRecord → Type 0
History F factor target_ns ds h h' =
    (durations h' ≡ onto (duration_us F) ds (durations h))
    × (missed_flags h' ≡ onto (verdict F factor target_ns) ds (missed_flags h))

report_one-factor :
    (F : Float) (s : SessionRecords F.Double) (m : FrameTimingMetrics) (d : WorkDuration)
    (target_ns : ℤ) (game : Bool)
    → let t = (report_one F s m d target_ns game).0 in
      (t.jank_check_time_factor ≡ s.jank_check_time_factor)
      × (t.max_num_of_records ≡ s.max_num_of_records)
      × ((prepare F s d target_ns game).2.total_duration_us ≡ duration_us F d)
      × ((prepare F s d target_ns game).2.is_missed_cycle
          ≡ verdict F s.jank_check_time_factor target_ns d)
unfolding report_one store_record
report_one-factor F s m d target_ns game =
    let p = prepare-IsPrepared F s d target_ns game in
    let f = p.same_factor ∙ make_room-factor s (pos 0) [] in
    (
      f,
      p.same_max ∙ make_room-max s (pos 0) [],
      p.duration,
      p.missed_test ∙ ap (λ x. cycle_missed F x (duration_us F d) target_ns) f,
    )

-- Reporting a list of durations puts them, in order, before the history that the records track.
pub add_reported_durations-Tracks :
    (F : Float) (s : SessionRecords F.Double) (m : FrameTimingMetrics) (ds : List WorkDuration)
    (target_ns : ℤ) (game : Bool) (base : ℤ) (h : List CycleRecord)
    → Tracks s base h
    → (h' : List CycleRecord) × Tracks (add_reported_durations F s m ds target_ns game).0 base h'
      × History F s.jank_check_time_factor target_ns ds h h'
      × ((add_reported_durations F s m ds target_ns game).0.max_num_of_records
          ≡ s.max_num_of_records)
unfolding add_reported_durations
add_reported_durations-Tracks F s m [] target_ns game base h t = (h, t, (refl, refl), refl)
add_reported_durations-Tracks F s m (d ∷ ds) target_ns game base h t =
    let (s', m') = report_one F s m d target_ns game in
    let r = (prepare F s d target_ns game).2 in
    let (same_factor, same_max, us, missed) = report_one-factor F s m d target_ns game in
    let (h', t', told, max) =
      add_reported_durations-Tracks F s' m' ds target_ns game base (r ∷ h)
        (report_one-Tracks F s m d target_ns game base h t) in
    (
      h',
      t',
      (
        told.0 ∙ ap (λ x. onto (duration_us F) ds (x ∷ durations h)) us,
        told.1 ∙ rw (same_factor, missed),
      ),
      max ∙ same_max,
    )
