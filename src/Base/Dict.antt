-- ===== src/Base/Dict.antt =====
-- `std::unordered_map` with keys that are only compared: an association list in iteration order.
use hardware_voltage_interfa.Base.Tests.{◌==◌, if◌then◌else◌}
use Prim.Native.Nat.{ℕ}
use mathlib.Core.Path.{◌≡◌, refl}
use mathlib.Core.Bool.{Bool, false, ◌||◌}
use mathlib.Core.Logic.{◌≢◌}
use mathlib.Core.List.{List, [], ◌∷◌}
use mathlib.Core.Option
use mathlib.Core.Option.{Option, none, some}
use native.Mathlib.Omega.{arith}

abbrev pub Dict {ℓ} : Type ℓ → Type ℓ
Dict V = List (ℕ × V)

module _ {ℓ} {V : Type ℓ} where
  -- `m.find(k)`
  unfoldable pub find : ℕ → Dict V → Option V
  find k [] = none
  find k ((j, v) ∷ m) = if j == k then some v else find k m

  -- `m[k] = v`
  unfoldable pub assign : ℕ → V → Dict V → Dict V
  assign k v [] = (k, v) ∷ []
  assign k v ((j, w) ∷ m) = if j == k then (k, v) ∷ m else (j, w) ∷ assign k v m

  -- `m.erase(m.find(k))`
  unfoldable pub erase : ℕ → Dict V → Dict V
  erase k [] = []
  erase k ((j, w) ∷ m) = if j == k then m else (j, w) ∷ erase k m

  -- `if (it != m.end()) change(it->second)`: a value that is there is changed in place.
  unfoldable pub update : ℕ → (V → V) → Dict V → Dict V
  update k f [] = []
  update k f ((j, v) ∷ m) = if j == k then (j, f v) ∷ m else (j, v) ∷ update k f m

  unfoldable pub contains : ℕ → Dict V → Bool
  contains k [] = false
  contains k ((j, v) ∷ m) = j == k || contains k m

  -- A map holds a key once.
  abbrev pub Distinct : Dict V → Type 0
  Distinct [] = Unit
  Distinct ((j, w) ∷ m) = (contains j m ≡ false) × Distinct m

  pub find-assign :
      (k j : ℕ) (v : V) (m : Dict V) → find j (assign k v m) ≡ (if k == j then some v else find j m)
  unfolding find assign
  find-assign k j v [] = refl
  find-assign k j v ((i, w) ∷ m) = ground (arith, find-assign k j v m)

  pub find-erase_ne : (k j : ℕ) (m : Dict V) → k ≢ j → find j (erase k m) ≡ find j m
  unfolding find erase
  find-erase_ne k j [] h = refl
  find-erase_ne k j ((i, w) ∷ m) h = ground (arith, find-erase_ne k j m h)

  pub find-update :
      (k j : ℕ) (f : V → V) (m : Dict V)
      → find j (update k f m) ≡ (if k == j then Option.map f (find j m) else find j m)
  unfolding find update
  find-update k j f [] = ground arith
  find-update k j f ((i, w) ∷ m) = ground (arith, find-update k j f m)

  pub contains-update :
      (k j : ℕ) (f : V → V) (m : Dict V) → contains j (update k f m) ≡ contains j m
  unfolding contains update
  contains-update k j f [] = refl
  contains-update k j f ((i, w) ∷ m) = ground (arith, contains-update k j f m)

  pub update-Distinct : (k : ℕ) (f : V → V) (m : Dict V) → Distinct m → Distinct (update k f m)
  unfolding update
  update-Distinct k f [] d = tt
  update-Distinct k f ((i, w) ∷ m) d =
      ground (arith, contains-update k i f m, update-Distinct k f m d.1)

  pub find_of_absent : (k : ℕ) (m : Dict V) → contains k m ≡ false → find k m ≡ none
  unfolding find contains
  find_of_absent k [] h = refl
  find_of_absent k ((i, w) ∷ m) h = ground (arith, find_of_absent k m)

  pub find-erase_self : (k : ℕ) (m : Dict V) → Distinct m → find k (erase k m) ≡ none
  unfolding find erase
  find-erase_self k [] d = refl
  find-erase_self k ((i, w) ∷ m) d = ground (arith, find-erase_self k m d.1, find_of_absent k m)

  contains-assign :
      (k j : ℕ) (v : V) (m : Dict V) → contains j (assign k v m) ≡ (k == j || contains j m)
  unfolding contains assign
  contains-assign k j v [] = ground arith
  contains-assign k j v ((i, w) ∷ m) = ground (arith, contains-assign k j v m)

  contains-erase : (k j : ℕ) (m : Dict V) → contains j m ≡ false → contains j (erase k m) ≡ false
  unfolding contains erase
  contains-erase k j [] h = refl
  contains-erase k j ((i, w) ∷ m) h = ground (arith, contains-erase k j m)

  pub assign-Distinct : (k : ℕ) (v : V) (m : Dict V) → Distinct m → Distinct (assign k v m)
  unfolding assign contains
  assign-Distinct k v [] d = (refl, tt)
  assign-Distinct k v ((i, w) ∷ m) d =
      ground (arith, contains-assign k i v m, assign-Distinct k v m d.1)

  pub erase-Distinct : (k : ℕ) (m : Dict V) → Distinct m → Distinct (erase k m)
  unfolding erase
  erase-Distinct k [] d = tt
  erase-Distinct k ((i, w) ∷ m) d = ground (arith, contains-erase k i m, erase-Distinct k m d.1)
