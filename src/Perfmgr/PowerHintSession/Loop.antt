-- ===== src/Perfmgr/PowerHintSession/Loop.antt =====
-- The loop of convertWorkDurationToBoostByPid from any position: each variable by its own window.
use hardware_voltage_interfa.Base.{
  ℕ, zero, suc, ◌-◌, ◌≡◌, refl, ◌∙◌, sym, List, [], ◌∷◌, leb, true, false, drop, take, arith,
  Bool-cases, inl, inr,
}
use hardware_voltage_interfa.Base.Int.{
  ℤ, pos, ◌+ℤ◌, ◌-ℤ◌, ◌*ℤ◌, max_ℤ, min_ℤ, int_laws, +ℤ_assoc, +ℤ_zero,
}
use hardware_voltage_interfa.Perfmgr.GpuCapacity.{Report}
use hardware_voltage_interfa.Perfmgr.PowerHintSession.Pid.{
  PidInput, PidState, pid_step, pid_loop, error_of, ns_to_100us,
}

unfoldable pub sum_of_errors : PidInput → List Report → ℤ
sum_of_errors p [] = pos 0
sum_of_errors p (d ∷ ds) = error_of p d +ℤ sum_of_errors p ds

-- The error of the last report, or the one before all of them.
unfoldable pub last_error : PidInput → ℤ → List Report → ℤ
last_error p before [] = before
last_error p before (d ∷ ds) = last_error p (error_of p d) ds

-- The errors times the sampling time, with the bounds after each.
unfoldable pub accumulated : PidInput → ℤ → List Report → ℤ
accumulated p x [] = x
accumulated p x (d ∷ ds) =
    accumulated p (max_ℤ p.low (min_ℤ p.high (x +ℤ error_of p d *ℤ ns_to_100us p.target))) ds

-- The variables of the loop that starts at position `i` in the state `x`.
pub record IsLoopOf (p : PidInput) (i : ℕ) (ds : List Report) (x y : PidState) : Type 0 where
  pub errors : y.err_sum ≡ x.err_sum +ℤ sum_of_errors p (drop (p.p_start - i) ds)
  pub derivative :
      y.derivative_sum
      ≡ x.derivative_sum
        +ℤ (last_error p x.previous_error ds
            -ℤ last_error p x.previous_error (take (p.d_start - i) ds))
  pub integral : y.integral_error ≡ accumulated p x.integral_error (drop (p.i_start - i) ds)
  pub previous : y.previous_error ≡ last_error p x.previous_error ds

-- A window that starts at `n`, seen at position `i`: it is open, or the report there is skipped.
pub data Place (A : Type 0) (n i : ℕ) (x : A) (xs : List A) : Type 0 where
  inside :
      leb n i ≡ true
      → drop (n - i) (x ∷ xs) ≡ x ∷ xs
      → drop (n - suc i) xs ≡ xs
      → take (n - i) (x ∷ xs) ≡ []
      → take (n - suc i) xs ≡ []
      → Place A n i x xs
  ahead :
      leb n i ≡ false
      → drop (n - i) (x ∷ xs) ≡ drop (n - suc i) xs
      → take (n - i) (x ∷ xs) ≡ x ∷ take (n - suc i) xs
      → Place A n i x xs

pub drop_zero : {A : Type 0} (n : ℕ) (xs : List A) → n ≡ 0 → (drop n xs ≡ xs) × (take n xs ≡ [])
drop_zero n xs h = rw h (refl, refl)

pub drop-suc :
    {A : Type 0} (n m : ℕ) (x : A) (xs : List A)
    → n ≡ suc m
    → (drop n (x ∷ xs) ≡ drop m xs) × (take n (x ∷ xs) ≡ x ∷ take m xs)
drop-suc n m x xs h = rw h (refl, refl)

pub place : {A : Type 0} (n i : ℕ) (x : A) (xs : List A) → Place A n i x xs
place n i x xs = elim (Bool-cases (leb n i)) [
  | inl h ↦
      let now = drop_zero (n - i) (x ∷ xs) (ground arith) in
      let later = drop_zero (n - suc i) xs (ground arith) in inside h now.0 later.0 now.1 later.1
  | inr h ↦ let skip = drop-suc (n - i) (n - suc i) x xs (ground arith) in ahead h skip.0 skip.1
]

pub errors_step :
    (p : PidInput) (i : ℕ) (d : Report) (ds : List Report) (x : PidState)
    → (pid_step p i d x).err_sum +ℤ sum_of_errors p (drop (p.p_start - suc i) ds)
      ≡ x.err_sum +ℤ sum_of_errors p (drop (p.p_start - i) (d ∷ ds))
unfolding pid_step sum_of_errors
errors_step p i d ds x = elim (place p.p_start i d ds) [
  | inside h now later _ _ ↦
      rw (h, now, later) (+ℤ_assoc x.err_sum (error_of p d) (sum_of_errors p ds))
  | ahead h skip _ ↦ rw (h, skip) refl
]

pub integral_step :
    (p : PidInput) (i : ℕ) (d : Report) (ds : List Report) (x : PidState)
    → accumulated p (pid_step p i d x).integral_error (drop (p.i_start - suc i) ds)
      ≡ accumulated p x.integral_error (drop (p.i_start - i) (d ∷ ds))
unfolding pid_step accumulated
integral_step p i d ds x = elim (place p.i_start i d ds) [
  | inside h now later _ _ ↦ rw (h, now, later) refl
  | ahead h skip _ ↦ rw (h, skip) refl
]

pub telescope : (x e b l : ℤ) → x +ℤ (e -ℤ b) +ℤ (l -ℤ e) ≡ x +ℤ (l -ℤ b)
telescope x e b l = omega int_laws

pub derivative_step :
    (p : PidInput) (i : ℕ) (d : Report) (ds : List Report) (x : PidState) (l : ℤ)
    → (pid_step p i d x).derivative_sum
        +ℤ (l -ℤ last_error p (error_of p d) (take (p.d_start - suc i) ds))
      ≡ x.derivative_sum +ℤ (l -ℤ last_error p x.previous_error (take (p.d_start - i) (d ∷ ds)))
unfolding pid_step last_error
derivative_step p i d ds x l = elim (place p.d_start i d ds) [
  | inside h _ _ now later ↦
      rw (h, now, later) (telescope x.derivative_sum (error_of p d) x.previous_error l)
  | ahead h _ skip ↦ rw (h, skip) refl
]

pub pid_loop-IsLoopOf :
    (p : PidInput) (i : ℕ) (ds : List Report) (x : PidState) → IsLoopOf p i ds x (pid_loop p i ds x)
unfolding pid_loop pid_step last_error sum_of_errors accumulated
pid_loop-IsLoopOf p i [] x = record {
  errors = empty_sum (p.p_start - i);
  derivative = empty_change (p.d_start - i);
  integral = empty_integral (p.i_start - i);
  previous = refl;
}
  where
    empty_sum : (n : ℕ) → x.err_sum ≡ x.err_sum +ℤ sum_of_errors p (drop n [])
    empty_sum zero = sym (+ℤ_zero _)
    empty_sum (suc n) = sym (+ℤ_zero _)

    empty_integral : (n : ℕ) → x.integral_error ≡ accumulated p x.integral_error (drop n [])
    empty_integral zero = refl
    empty_integral (suc n) = refl

    no_change : (a b : ℤ) → a ≡ a +ℤ (b -ℤ b)
    no_change a b = omega int_laws

    empty_change :
        (n : ℕ)
        → x.derivative_sum
          ≡ x.derivative_sum +ℤ (x.previous_error -ℤ last_error p x.previous_error (take n []))
    empty_change zero = no_change x.derivative_sum x.previous_error
    empty_change (suc n) = no_change x.derivative_sum x.previous_error
pid_loop-IsLoopOf p i (d ∷ ds) x =
    let ih = pid_loop-IsLoopOf p (suc i) ds (pid_step p i d x) in
    record {
      errors = ih.errors ∙ errors_step p i d ds x;
      derivative = ih.derivative ∙ derivative_step p i d ds x _;
      integral = ih.integral ∙ integral_step p i d ds x;
      previous = ih.previous;
    }
