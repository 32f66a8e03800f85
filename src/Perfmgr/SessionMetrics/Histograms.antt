-- ===== src/Perfmgr/SessionMetrics/Histograms.antt =====
-- What the histograms and the totals of game frames add up to.
use mathlib.Core.Path.{subst}
use hardware_voltage_interfa.Base.{
  ℕ, ◌+◌, ◌%◌, ◌<◌, ◌≡◌, refl, sym, ◌∙◌, leb, ◌==◌, if◌then◌else◌, List, [], ◌∷◌, length, get_or,
  set, arith, length-set, get_or-set_self, get_or-set_ne, inl, inr, Bool-cases,
}
use hardware_voltage_interfa.Perfmgr.SessionRecords.{GameFrameMetrics}
use hardware_voltage_interfa.Perfmgr.SessionMetrics.{
  SessionMetrics, bump, add_timing, add_timings, add_delta, add_deltas, add_totals, add_game_frames,
  game_or_empty,
}

-- The durations that belong to bucket `i`: the last bucket takes all that are too long.
abbrev pub bucket_of : ℕ → ℕ
bucket_of d = if leb 100 d then 99 else d

unfoldable pub count_in : ℕ → List ℕ → ℕ
count_in i [] = 0
count_in i (d ∷ ds) = (if bucket_of d == i then 1 else 0) + count_in i ds

-- The time of frames, each cut off at the number of buckets.
unfoldable pub capped_sum : List ℕ → ℕ
capped_sum [] = 0
capped_sum (d ∷ ds) = (if leb 100 d then 100 else d) + capped_sum ds

unfoldable pub sum_of : List ℕ → ℕ
sum_of [] = 0
sum_of (d ∷ ds) = d + sum_of ds

-- Two histograms of the same shape, the second with `n` more in bucket `i`.
pub record IsMore (i n : ℕ) (h k : List ℕ) : Type 0 where
  pub size : length k ≡ length h
  pub count : get_or k i 0 % 4294967296 ≡ (get_or h i 0 + n) % 4294967296

get_or-bump :
    (i j : ℕ) (h : List ℕ)
    → j < length h
    → get_or (bump j h) i 0 ≡ (if j == i then (get_or h i 0 + 1) % 4294967296 else get_or h i 0)
unfolding bump
get_or-bump i j h bound =
    let same = get_or-set_self h j ((get_or h j 0 + 1) % 4294967296) 0 bound in
    let other = get_or-set_ne h j i ((get_or h j 0 + 1) % 4294967296) 0 in
    elim (Bool-cases (j == i)) [
      | inl e ↦
          let eq : j ≡ i = ground arith in
          rw e (
            subst
              (λ k.
                get_or (set h j ((get_or h j 0 + 1) % 4294967296)) k 0
                ≡ (get_or h k 0 + 1) % 4294967296)
              eq same)
      | inr e ↦ rw e (other (ground arith))
    ]

size-bump : (j : ℕ) (h : List ℕ) → length (bump j h) ≡ length h
unfolding bump
size-bump j h = length-set h j ((get_or h j 0 + 1) % 4294967296)

bump-IsMore :
    (i j : ℕ) (h : List ℕ) → j < length h → IsMore i (if j == i then 1 else 0) h (bump j h)
bump-IsMore i j h bound =
    let e = get_or-bump i j h bound in let size = size-bump j h in ground arith

IsMore-trans : (i m n : ℕ) (h k l : List ℕ) → IsMore i m h k → IsMore i n k l → IsMore i (m + n) h l
IsMore-trans i m n h k l p q =
    let a = p.size in
    let b = q.size in
    let c = p.count in let d = q.count in record { size = omega arith; count = omega arith }

-- The second game metrics have the durations `ds` more, bucket by bucket and in time.
pub record IsTimed (i : ℕ) (ds : List ℕ) (g k : GameFrameMetrics) : Type 0 where
  pub histogram : IsMore i (count_in i ds) g.frame_timing_ms k.frame_timing_ms
  pub time :
      (k.total_frame_time_ms + sum_of ds) % 18446744073709551616
      ≡ (g.total_frame_time_ms + capped_sum ds) % 18446744073709551616
  pub deltas : k.frame_timing_delta_ms ≡ g.frame_timing_delta_ms
  pub frames : k.num_of_frames ≡ g.num_of_frames

add_timing-IsTimed :
    (i : ℕ) (g : GameFrameMetrics) (d : ℕ)
    → length g.frame_timing_ms ≡ 100
    → d < 4294967296
    → IsTimed i (d ∷ []) g (add_timing g d)
unfolding add_timing count_in sum_of capped_sum
add_timing-IsTimed i g d size small =
    let long = bump-IsMore i 99 g.frame_timing_ms (omega arith) in
    let lc = long.count in
    let ls = long.size in
    elim (Bool-cases (leb 100 d)) [
      | inl e ↦ ground arith
      | inr e ↦
          let short = bump-IsMore i d g.frame_timing_ms (ground arith) in
          let sc = short.count in let ss = short.size in ground arith
    ]

abbrev pub AllSmall : List ℕ → Type 0
AllSmall [] = Unit
AllSmall (d ∷ ds) = (d < 4294967296) × AllSmall ds

IsTimed-trans :
    (i d : ℕ) (ds : List ℕ) (g k l : GameFrameMetrics)
    → IsTimed i (d ∷ []) g k
    → IsTimed i ds k l
    → IsTimed i (d ∷ ds) g l
unfolding count_in sum_of capped_sum
IsTimed-trans i d ds g k l p q =
    let a = p.time in
    let b = q.time in
    let zero_more : count_in i (d ∷ []) + count_in i ds ≡ count_in i (d ∷ ds) = omega arith in
    let h =
      IsMore-trans i (count_in i (d ∷ [])) (count_in i ds) g.frame_timing_ms k.frame_timing_ms
        l.frame_timing_ms p.histogram q.histogram in
    record {
      histogram = subst (λ n. IsMore i n g.frame_timing_ms l.frame_timing_ms) zero_more h;
      time = omega arith;
      deltas = q.deltas ∙ p.deltas;
      frames = q.frames ∙ p.frames;
    }

nothing-IsTimed : (i : ℕ) (g : GameFrameMetrics) → IsTimed i [] g g
unfolding count_in sum_of capped_sum
nothing-IsTimed i g = record {
  histogram = record { size = refl; count = omega arith };
  time = refl;
  deltas = refl;
  frames = refl;
}

add_timings-IsTimed :
    (i : ℕ) (g : GameFrameMetrics) (ds : List ℕ)
    → length g.frame_timing_ms ≡ 100
    → AllSmall ds
    → IsTimed i ds g (add_timings g ds)
unfolding add_timings
add_timings-IsTimed i g [] size small = nothing-IsTimed i g
add_timings-IsTimed i g (d ∷ ds) size small =
    let one = add_timing-IsTimed i g d size small.0 in
    let h = one.histogram in
    let same = h.size in
    let rest = add_timings-IsTimed i (add_timing g d) ds (omega arith) small.1 in
    IsTimed-trans i d ds g (add_timing g d) (add_timings (add_timing g d) ds) one rest

add_delta-IsMore :
    (i : ℕ) (h : List ℕ) (d : ℕ)
    → length h ≡ 100
    → IsMore i (if bucket_of d == i then 1 else 0) h (add_delta h d)
unfolding add_delta
add_delta-IsMore i h d size =
    let long = bump-IsMore i 99 h (omega arith) in
    let lc = long.count in
    let ls = long.size in
    elim (Bool-cases (leb 100 d)) [
      | inl e ↦ ground arith
      | inr e ↦
          let short = bump-IsMore i d h (ground arith) in
          let sc = short.count in let ss = short.size in ground arith
    ]

add_deltas-IsMore :
    (i : ℕ) (h ds : List ℕ) → length h ≡ 100 → IsMore i (count_in i ds) h (add_deltas h ds)
unfolding add_deltas count_in
add_deltas-IsMore i h [] size = record { size = refl; count = omega arith }
add_deltas-IsMore i h (d ∷ ds) size =
    let one = add_delta-IsMore i h d size in
    let same = one.size in
    IsMore-trans i (if bucket_of d == i then 1 else 0) (count_in i ds) h (add_delta h d)
      (add_deltas (add_delta h d) ds) one (add_deltas-IsMore i (add_delta h d) ds (omega arith))

-- The game metrics `k` are `g` with the frames `new`, in bucket `i` and in total.
pub record IsAdded (i : ℕ) (new g k : GameFrameMetrics) : Type 0 where
  pub timing : IsMore i (count_in i new.frame_timing_ms) g.frame_timing_ms k.frame_timing_ms
  pub delta :
      IsMore i
        (count_in i new.frame_timing_delta_ms)
        g.frame_timing_delta_ms
        k.frame_timing_delta_ms
  pub time :
      k.total_frame_time_ms % 18446744073709551616
      ≡ (g.total_frame_time_ms + capped_sum new.frame_timing_ms) % 18446744073709551616
  pub frames : k.num_of_frames ≡ (g.num_of_frames + new.num_of_frames) % 4294967296

-- Adding game frames adds to each bucket of both histograms, modulo 2^32, the number of frames that
-- belong there, those of 100 ms and more to the last, and keeps the number of buckets; and if the
-- total time given is the sum of the frames' times, it adds, modulo 2^64, the sum of the times cut
-- off at 100 ms. Metrics without game frames count as a hundred empty buckets.
pub add_game_frames-IsAdded :
    (i : ℕ) (new : GameFrameMetrics) (s : SessionMetrics)
    → length (game_or_empty s.game_frame_metrics).frame_timing_ms ≡ 100
    → length (game_or_empty s.game_frame_metrics).frame_timing_delta_ms ≡ 100
    → AllSmall new.frame_timing_ms
    → new.total_frame_time_ms ≡ sum_of new.frame_timing_ms
    → IsAdded i new
        (game_or_empty s.game_frame_metrics)
        (game_or_empty (add_game_frames new s).game_frame_metrics)
unfolding add_game_frames
add_game_frames-IsAdded i new s size delta_size small total =
    let g = game_or_empty s.game_frame_metrics in
    let k = add_timings (add_totals new g) new.frame_timing_ms in
    let t = add_timings-IsTimed i (add_totals new g) new.frame_timing_ms size small in
    let time = t.time in
    record {
      timing = t.histogram;
      delta =
          subst
            (λ h.
              IsMore i (count_in i new.frame_timing_delta_ms) g.frame_timing_delta_ms
                (add_deltas h new.frame_timing_delta_ms))
            (sym t.deltas)
            (add_deltas-IsMore i g.frame_timing_delta_ms new.frame_timing_delta_ms delta_size);
      time = omega arith;
      frames = t.frames;
    }
