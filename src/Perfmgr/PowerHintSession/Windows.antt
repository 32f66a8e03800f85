-- ===== src/Perfmgr/PowerHintSession/Windows.antt =====
-- The PID controller of PowerHintSession.cpp by its sampling windows: each variable of the loop is a
-- function of its own window of the reports.
use hardware_voltage_interfa.Base.{
  ℕ, zero, suc, ◌-◌, ◌≤◌, ◌<◌, ◌≡◌, refl, ap, ◌∙◌, List, [], ◌∷◌, length, drop, take, arith,
}
use hardware_voltage_interfa.Base.Int.{ℤ, pos, ◌+ℤ◌, ◌-ℤ◌, ◌≤ℤ◌, max_ℤ, min_ℤ, int_laws, zero-+ℤ}
use hardware_voltage_interfa.Perfmgr.GpuCapacity.{Report}
use hardware_voltage_interfa.Perfmgr.PowerHintSession.{AdpfConfig, AppHintDesc}
use hardware_voltage_interfa.Perfmgr.PowerHintSession.Pid.{
  PidInput, PidState, pid_loop, pid_input, run_pid, window_start, first_start,
}
use hardware_voltage_interfa.Perfmgr.PowerHintSession.Loop.{
  sum_of_errors, last_error, accumulated, pid_loop-IsLoopOf,
}

drop-drop : {A : Type 0} (m n : ℕ) (xs : List A) → m ≤ n → drop (n - m) (drop m xs) ≡ drop n xs
drop-drop zero n xs le = ap (λ k. drop k xs) (omega arith)
drop-drop (suc m) zero xs le = absurd (omega arith)
drop-drop (suc m) (suc n) [] le = drop_nil (suc n - suc m)
  where
    drop_nil : {A : Type 0} (k : ℕ) → drop {A = A} k [] ≡ []
    drop_nil zero = refl
    drop_nil (suc k) = refl
drop-drop (suc m) (suc n) (x ∷ xs) le =
    ap (λ k. drop k (drop m xs)) (same m n) ∙ drop-drop m n xs (omega arith)
  where
    same : (m n : ℕ) → suc n - suc m ≡ n - m
    same m n = omega arith

last_error-drop :
    (p : PidInput) (m : ℕ) (b : ℤ) (ds : List Report)
    → m < length ds
    → last_error p b (drop m ds) ≡ last_error p b ds
unfolding last_error
last_error-drop p zero b ds lt = refl
last_error-drop p (suc m) b [] lt = absurd (omega arith)
last_error-drop p (suc m) b (d ∷ []) lt = absurd (omega arith)
last_error-drop p (suc m) b (d ∷ e ∷ ds) lt = last_error-drop p m b (e ∷ ds) (omega arith)

-- The integral is between its bounds after every report of its window.
unfoldable pub IsBounded : PidInput → ℤ → Type 0
IsBounded p x = (p.low ≤ℤ x) × (p.low ≤ℤ p.high → x ≤ℤ p.high)

bounded :
    (low high x : ℤ)
    → (low ≤ℤ max_ℤ low (min_ℤ high x)) × (low ≤ℤ high → max_ℤ low (min_ℤ high x) ≤ℤ high)
unfolding max_ℤ min_ℤ
bounded low high x = (ground arith, λ h. ground arith)

accumulated-IsBounded :
    (p : PidInput) (m : ℕ) (ds : List Report) (x : ℤ)
    → m < length ds
    → IsBounded p (accumulated p x (drop m ds))
unfolding accumulated IsBounded
accumulated-IsBounded p m [] x lt = absurd (omega arith)
accumulated-IsBounded p zero (d ∷ []) x lt = bounded p.low p.high _
accumulated-IsBounded p zero (d ∷ e ∷ ds) x lt =
    accumulated-IsBounded p zero (e ∷ ds) _ (omega arith)
accumulated-IsBounded p (suc m) (d ∷ ds) x lt = accumulated-IsBounded p m ds x (omega arith)

window_start-lt : (w n : ℕ) → 0 < n → window_start w n < n
unfolding window_start
window_start-lt w n h = ground arith

-- What the loop leaves, for the reports `ds` and the starts of the windows in `p`.
pub record IsPidOf (p : PidInput) (ds : List Report) (a : AppHintDesc) (x : PidState) : Type 0 where
  pub errors : x.err_sum ≡ sum_of_errors p (drop p.p_start ds)
  pub derivative :
      x.derivative_sum
      ≡ last_error p a.previous_error ds
        -ℤ last_error p a.previous_error
            (take (p.d_start - first_start p) (drop (first_start p) ds))
  pub integral : x.integral_error ≡ accumulated p a.integral_error (drop p.i_start ds)
  pub between : IsBounded p x.integral_error
  pub previous : x.previous_error ≡ last_error p a.previous_error ds
  pub p_window : p.p_start < length ds
  pub d_window : p.d_start < length ds

first_start_le :
    (p : PidInput)
    → (first_start p ≤ p.p_start) × (first_start p ≤ p.i_start) × (first_start p ≤ p.d_start)
first_start_le p = ground arith

sub_start : (a b : ℤ) → pos 0 +ℤ (a -ℤ b) ≡ a -ℤ b
sub_start a b = omega int_laws

pid_loop-IsPidOf :
    (p : PidInput) (ds : List Report) (a : AppHintDesc)
    → p.p_start < length ds
    → p.i_start < length ds
    → p.d_start < length ds
    → IsPidOf p ds a (
        pid_loop p (first_start p) (drop (first_start p) ds) record {
          err_sum = pos 0;
          derivative_sum = pos 0;
          integral_error = a.integral_error;
          previous_error = a.previous_error;
        })
pid_loop-IsPidOf p ds a lp li ld =
    let le = first_start_le p in
    let fits : first_start p < length ds = omega arith in
    let all = pid_loop-IsLoopOf p (first_start p) (drop (first_start p) ds) _ in
    let last = last_error-drop p (first_start p) a.previous_error ds fits in
    let integral =
      all.integral
      ∙ ap (accumulated p a.integral_error) (drop-drop (first_start p) p.i_start ds le.1) in
    record {
      errors =
          all.errors
          ∙ zero-+ℤ _
          ∙ ap (sum_of_errors p) (drop-drop (first_start p) p.p_start ds le.0);
      derivative =
          all.derivative
          ∙ sub_start _ _
          ∙ ap
              (λ l.
                l
                -ℤ last_error p a.previous_error
                    (take (p.d_start - first_start p) (drop (first_start p) ds)))
              last;
      integral = integral;
      between = rw integral (accumulated-IsBounded p p.i_start ds a.integral_error li);
      previous = all.previous ∙ last;
      p_window = lp;
      d_window = ld;
    }

-- For any windows and at least one report, the loop of the PID controller leaves the sum of the
-- errors of the P window; the last error less the one from before the D window; the errors of the I
-- window times the sampling time, bounded at each, so that the integral is between its bounds
-- where they are in order; and the last error. The P and D windows, which the output is divided by
-- the lengths of, are not empty.
pub run_pid-IsPidOf :
    {D : Type 0} (c : AdpfConfig D) (d : Report) (ds : List Report) (a : AppHintDesc)
    → IsPidOf (pid_input c a.target_ns (length (d ∷ ds))) (d ∷ ds) a (run_pid c (d ∷ ds) a)
unfolding run_pid pid_input
run_pid-IsPidOf c d ds a =
    let full : 0 < suc (length ds) = omega arith in
    pid_loop-IsPidOf (pid_input c a.target_ns (length (d ∷ ds))) (d ∷ ds) a
      (window_start-lt c.sampling_window_p _ full) (window_start-lt c.sampling_window_i _ full)
      (window_start-lt c.sampling_window_d _ full)
