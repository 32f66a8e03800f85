-- ===== src/Perfmgr/SessionRecords/Maxima.antt =====
-- The queue of the descending maxima, against its description over the history of records.
use native.Mathlib.Nat.{mod-eq-sub-mod}
use mathlib.Core.List.{map-append}
use hardware_voltage_interfa.Base.{
  ℕ, zero, suc, ◌+◌, ◌-◌, ◌%◌, ◌≤◌, ◌<◌, ◌≡◌, refl, sym, ap, ◌∙◌, ◌≢◌, ◌⊎◌, inl, inr, Bool, true,
  false, List, [], ◌∷◌, ◌++◌, map, Option, none, some, arith, get_or, length, take, get_last_or,
  Bool-cases, ==_ne, ==_refl, get_last_or-append_one, drop_last-append_one,
}
use hardware_voltage_interfa.Base.Int.{ℤ, ltb_ℤ, max_ℤ}
use hardware_voltage_interfa.Perfmgr.SessionRecords.{
  CycleRecord, no_record, pop_not_greater, pop_front_if, front_is,
}
use hardware_voltage_interfa.Perfmgr.SessionRecords.Ring.{Stored, mod_apart}

abbrev pub exceeds : Option ℤ → ℤ → Bool
exceeds none x = true
exceeds (some b) x = ltb_ℤ b x

-- The sequence numbers, the newest first, of those among the first `n` records that last longer than
-- the bound and than every record after them.
unfoldable pub maxima : ℕ → Option ℤ → List CycleRecord → List ℕ
maxima zero b h = []
maxima (suc n) b [] = []
maxima (suc n) b (x ∷ h) = elim (exceeds b x.total_duration_us) [
  | true ↦ length h ∷ maxima n (some x.total_duration_us) h
  | false ↦ maxima n b h
]

abbrev pub slots : ℕ → List ℕ → List ℕ
slots k = map (λ q. q % k)

abbrev raise : Option ℤ → ℤ → Option ℤ
raise none v = some v
raise (some b) v = some (max_ℤ b v)

module _ (rs : List CycleRecord) (k n : ℕ) (v : ℤ) (x : CycleRecord) (h : List CycleRecord) where
  abbrev Pops : Option ℤ → Type 0
  Pops b = pop_not_greater rs v (slots k (maxima n b h)) ≡ slots k (maxima n (raise b v) h)

  abbrev PopsAll : Option ℤ → Type 0
  PopsAll b =
      pop_not_greater rs v (slots k (maxima (suc n) b (x ∷ h)))
      ≡ slots k (maxima (suc n) (raise b v) (x ∷ h))

  pop_leader :
      (b : Option ℤ)
      → get_or rs (length h % k) no_record ≡ x
      → exceeds b x.total_duration_us ≡ true
      → Pops (some x.total_duration_us)
      → PopsAll b
  unfolding pop_not_greater maxima max_ℤ
  pop_leader none stored e ih = ground arith
  pop_leader (some b) stored e ih = ground arith

  pop_other : (b : Option ℤ) → exceeds b x.total_duration_us ≡ false → Pops b → PopsAll b
  unfolding pop_not_greater maxima max_ℤ
  pop_other none e ih = ground arith
  pop_other (some b) e ih = ground arith

-- Popping what is not greater than `v` leaves the records that are greater than `v` too.
pub pop_maxima :
    (rs : List CycleRecord) (k n : ℕ) (b : Option ℤ) (v : ℤ) (h : List CycleRecord)
    → Stored rs k n h
    → pop_not_greater rs v (slots k (maxima n b h)) ≡ slots k (maxima n (raise b v) h)
unfolding pop_not_greater maxima
pop_maxima rs k zero b v h s = refl
pop_maxima rs k (suc n) b v [] s = refl
pop_maxima rs k (suc n) b v (x ∷ h) s =
    pop_step (pop_maxima rs k n (some x.total_duration_us) v h s.1) (pop_maxima rs k n b v h s.1)
  where
    pop_step :
        Pops rs k n v x h (some x.total_duration_us) → Pops rs k n v x h b → PopsAll rs k n v x h b
    pop_step leads other = elim (Bool-cases (exceeds b x.total_duration_us)) [
      | inl e ↦ pop_leader rs k n v x h b s.0 e leads
      | inr e ↦ pop_other rs k n v x h b e other
    ]

-- One more record in the window adds at most its own number, at the end.
maxima-suc :
    (n : ℕ) (b : Option ℤ) (h : List CycleRecord)
    → (maxima (suc n) b h ≡ maxima n b h)
      ⊎ ((q : ℕ) × (q + suc n ≡ length h) × (maxima (suc n) b h ≡ maxima n b h ++ q ∷ []))
unfolding maxima
maxima-suc zero b [] = inl refl
maxima-suc zero b (x ∷ h) = elim (Bool-cases (exceeds b x.total_duration_us)) [
  | inl e ↦ inr (length h, omega arith, rw (e, maxima) refl)
  | inr e ↦ inl (rw (e, maxima) refl)
]
maxima-suc (suc n) b [] = inl refl
maxima-suc (suc n) b (x ∷ h) =
    ground (arith, maxima-suc n (some x.total_duration_us) h, maxima-suc n b h)

abbrev NoneIs : ℕ → List ℕ → Type 0
NoneIs i [] = Unit
NoneIs i (x ∷ q) = (x ≢ i) × NoneIs i q

maxima-NoneIs :
    (k n t : ℕ) (b : Option ℤ) (h : List CycleRecord)
    → length h ≤ t
    → t + n < length h + k
    → NoneIs (t % k) (slots k (maxima n b h))
unfolding maxima
maxima-NoneIs k zero t b h le near = tt
maxima-NoneIs k (suc n) t b [] le near = tt
maxima-NoneIs k (suc n) t b (x ∷ h) le near = ground (
  arith,
  mod_apart k (length h) t,
  maxima-NoneIs k n t (some x.total_duration_us) h,
  maxima-NoneIs k n t b h,
)

get_last_or-NoneIs : (i x : ℕ) (q : List ℕ) → x ≢ i → NoneIs i q → get_last_or x q ≢ i
get_last_or-NoneIs i x [] h a = h
get_last_or-NoneIs i x (y ∷ q) h a = get_last_or-NoneIs i y q a.0 a.1

front_is-NoneIs : (i : ℕ) (q : List ℕ) → NoneIs i q → front_is q i ≡ false
unfolding front_is
front_is-NoneIs i [] a = refl
front_is-NoneIs i (x ∷ q) a = ==_ne _ i (get_last_or-NoneIs i x q a.0 a.1)

pop_front_if-append_one : (i : ℕ) (q : List ℕ) → pop_front_if i (q ++ i ∷ []) ≡ q
unfolding pop_front_if front_is
pop_front_if-append_one i [] = rw (==_refl i)
pop_front_if-append_one i (x ∷ q) =
    rw (get_last_or-append_one x q i, ==_refl i) (drop_last-append_one (x ∷ q) i)

-- In a full window, popping the front if it is the oldest record's slot leaves the maxima of the
-- other records.
pub pop_front-maxima :
    (n : ℕ) (h : List CycleRecord)
    → suc n ≤ length h
    → pop_front_if (length h % suc n) (slots (suc n) (maxima (suc n) none h))
      ≡ slots (suc n) (maxima n none h)
unfolding pop_front_if
pop_front-maxima n h le = elim (maxima-suc n none h) [
  | inl e ↦ rw e (
      rw (
        front_is-NoneIs _ _
          (maxima-NoneIs (suc n) n (length h) none h (omega arith) (omega arith))))
  | inr (q, place, e) ↦
      let oldest : length h - suc n ≡ q = omega arith in
      rw e (
        rw (map-append, mod-eq-sub-mod le, oldest)
          (pop_front_if-append_one (q % suc n) (slots (suc n) (maxima n none h))))
]

-- The largest duration among records and a bound, and the largest of all.
abbrev pub max_from : ℤ → List ℤ → ℤ
max_from b [] = b
max_from b (x ∷ xs) = max_from (max_ℤ b x) xs

abbrev pub maximum : List ℤ → Option ℤ
maximum [] = none
maximum (x ∷ xs) = some (max_from x xs)

abbrev pub durations : List CycleRecord → List ℤ
durations = map (λ r. r.total_duration_us)

abbrev last_duration : List CycleRecord → ℤ → List ℕ → ℤ
last_duration rs b [] = b
last_duration rs b (i ∷ q) = last_duration rs (get_or rs i no_record).total_duration_us q

last_duration-maxima :
    (rs : List CycleRecord) (k n : ℕ) (b : ℤ) (h : List CycleRecord)
    → Stored rs k n h
    → last_duration rs b (slots k (maxima n (some b) h)) ≡ max_from b (durations (take n h))
unfolding maxima max_ℤ
last_duration-maxima rs k zero b h s = refl
last_duration-maxima rs k (suc n) b [] s = refl
last_duration-maxima rs k (suc n) b (x ∷ h) s = ground (
  arith,
  s.0,
  last_duration-maxima rs k n x.total_duration_us h s.1,
  last_duration-maxima rs k n b h s.1,
)

last_duration-get_last_or :
    (rs : List CycleRecord) (i : ℕ) (q : List ℕ)
    → last_duration rs (get_or rs i no_record).total_duration_us q
      ≡ (get_or rs (get_last_or i q) no_record).total_duration_us
last_duration-get_last_or rs i [] = refl
last_duration-get_last_or rs i (j ∷ q) = last_duration-get_last_or rs j q

-- The front of the queue of the maxima is the slot of the longest record of the window.
pub front-maxima :
    (rs : List CycleRecord) (k n : ℕ) (x : CycleRecord) (h : List CycleRecord)
    → Stored rs k (suc n) (x ∷ h)
    → let front = get_last_or (length h % k) (slots k (maxima n (some x.total_duration_us) h)) in
      (get_or rs front no_record).total_duration_us
      ≡ max_from x.total_duration_us (durations (take n h))
front-maxima rs k n x h s =
    sym (
      last_duration-get_last_or rs (length h % k) (slots k (maxima n (some x.total_duration_us) h)))
    ∙ rw (ap (λ r. r.total_duration_us) s.0) (last_duration-maxima rs k n x.total_duration_us h s.1)
