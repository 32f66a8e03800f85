-- ===== src/Perfmgr/SessionRecords/Ring.antt =====
-- The ring: the record with sequence number n stands in the slot n % k.
use native.Mathlib.Nat.{mod-add-div, mod-eq-sub-mod}
use hardware_voltage_interfa.Base.{
  ℕ, zero, suc, ◌+◌, ◌-◌, ◌%◌, ◌≤◌, ◌<◌, ◌≡◌, sym, ◌∙◌, ◌≢◌, List, [], ◌∷◌, arith, get_or, set,
  length, get_or-set_ne,
}
use hardware_voltage_interfa.Perfmgr.SessionRecords.{CycleRecord, no_record}

-- The first `n` records of a history, the newest first, stand in the ring.
abbrev pub Stored : List CycleRecord → ℕ → ℕ → List CycleRecord → Type 0
Stored rs k zero h = Unit
Stored rs k (suc n) [] = Unit
Stored rs k (suc n) (x ∷ h) = (get_or rs (length h % k) no_record ≡ x) × Stored rs k n h

-- Numbers closer than `k` have different slots.
pub mod_apart : (k a b : ℕ) → a < b → b < a + k → a % k ≢ b % k
mod_apart k a b lt near e = grind (arith, mod-add-div a k, mod-add-div b k)

-- A write to the slot of a later record leaves the stored ones.
pub set-Stored :
    (rs : List CycleRecord) (k n t : ℕ) (h : List CycleRecord) (r : CycleRecord)
    → length h ≤ t
    → t + n < length h + k
    → Stored rs k n h
    → Stored (set rs (t % k) r) k n h
set-Stored rs k zero t h r le near s = tt
set-Stored rs k (suc n) t [] r le near s = tt
set-Stored rs k (suc n) t (x ∷ h) r le near s = (
  get_or-set_ne rs (t % k) (length h % k) r no_record
        (λ e. mod_apart k (length h) t le (omega arith) (sym e))
      ∙ s.0,
  set-Stored rs k n t h r (omega arith) (omega arith) s.1,
)

-- Fewer records are stored too.
pub Stored-pred :
    (rs : List CycleRecord) (k n : ℕ) (h : List CycleRecord)
    → Stored rs k (suc n) h
    → Stored rs k n h
Stored-pred rs k zero h s = tt
Stored-pred rs k (suc n) [] s = tt
Stored-pred rs k (suc n) (x ∷ h) s = (s.0, Stored-pred rs k n h s.1)

-- The record with sequence number `q` stands `i` places behind the newest one.
pub get_or-Stored :
    (rs : List CycleRecord) (k n i q : ℕ) (h : List CycleRecord)
    → Stored rs k n h
    → i < n
    → q + suc i ≡ length h
    → get_or rs (q % k) no_record ≡ get_or h i no_record
get_or-Stored rs k zero i q h s lt e = absurd (omega arith)
get_or-Stored rs k (suc n) i q [] s lt e = absurd (omega arith)
get_or-Stored rs k (suc n) zero q (x ∷ h) s lt e =
    let newest : q ≡ length h = omega arith in rw newest s.0
get_or-Stored rs k (suc n) (suc i) q (x ∷ h) s lt e =
    get_or-Stored rs k n i q h s.1 (omega arith) (omega arith)

-- In a full ring the oldest record stands in the slot of the next one.
pub oldest-Stored :
    (rs : List CycleRecord) (n : ℕ) (h : List CycleRecord)
    → Stored rs (suc n) (suc n) h
    → suc n ≤ length h
    → get_or rs (length h % suc n) no_record ≡ get_or h n no_record
oldest-Stored rs n h s le =
    rw (mod-eq-sub-mod le)
      (get_or-Stored rs (suc n) (suc n) n (length h - suc n) h s (omega arith) (omega arith))
