-- ===== src/Health/ChargingControl/Search.antt =====
-- health/aidl/default/ChargingControl.cpp: the search for a node ends where a node appears.
use mathlib.Core.Path.{subst}
use hardware_voltage_interfa.Base.{
  sym, ◌<◌, leb, ℕ, zero, suc, ◌+◌, ◌≤◌, ◌≡◌, ◌⊎◌, inl, inr, refl, Bool, true, false, Option, none,
  some, List, [], ◌∷◌, if◌then◌else◌, Bool-cases, arith,
}
use hardware_voltage_interfa.Health.ChargingControl.{try_node, unless_found, try_nodes, find_node}

-- An element of the list.
unfoldable pub IsIn : {A : Type 0} → A → List A → Type 0
IsIn x [] = true ≡ false
IsIn x (y ∷ xs) = (y ≡ x) ⊎ IsIn x xs

module _ {A : Type 0} (can : ℕ → A → Bool) where
  -- What was found can be accessed; where nothing was, no time was lost, and `P` holds.
  unfoldable pub Ends : (P : ℕ → Type 0) → ℕ × Option A → Type 0
  Ends P (u, some x) = can u x ≡ true
  Ends P (u, none) = P u

  unless_found-Ends :
      (P Q : ℕ → Type 0) (r : ℕ × Option A) (rest : ℕ → ℕ × Option A)
      → Ends P r
      → ((u : ℕ) → P u → Ends Q (rest u))
      → Ends Q (unless_found can r rest)
  unfolding Ends unless_found
  unless_found-Ends P Q (u, some x) rest e later = e
  unless_found-Ends P Q (u, none) rest e later = later u e

  weaken : (P Q : ℕ → Type 0) (r : ℕ × Option A) → ((u : ℕ) → P u → Q u) → Ends P r → Ends Q r
  unfolding Ends
  weaken P Q (u, some x) f e = e
  weaken P Q (u, none) f e = f u e

  try_node-Ends : (k t : ℕ) (x : A) → Ends (λ u. t + k ≤ u) (try_node can k t x)
  unfolding try_node Ends
  try_node-Ends zero t x = omega arith
  try_node-Ends (suc k) t x = elim (Bool-cases (can t x)) [
    | inl e ↦
        subst (λ b. Ends (λ u. t + suc k ≤ u) (if b then (t, some x) else try_node can k (suc t) x))
          (sym e) e
    | inr e ↦
        subst (λ b. Ends (λ u. t + suc k ≤ u) (if b then (t, some x) else try_node can k (suc t) x))
          (sym e)
          (weaken (λ u. suc t + k ≤ u) (λ u. t + suc k ≤ u) (try_node can k (suc t) x)
            (λ u h. omega arith) (try_node-Ends k (suc t) x))
  ]

  -- A node that can be accessed at once is found.
  try_node_finds :
      (k t : ℕ) (x : A) (P : ℕ → Type 0) → can t x ≡ true → Ends P (try_node can (suc k) t x)
  unfolding try_node Ends
  try_node_finds k t x P h =
      subst (λ b. Ends P (if b then (t, some x) else try_node can k (suc t) x)) (sym h) h

  try_nodes-Ends : (xs : List A) (t : ℕ) → Ends (λ u. t ≤ u) (try_nodes can xs t)
  unfolding try_nodes Ends
  try_nodes-Ends [] t = omega arith
  try_nodes-Ends (x ∷ xs) t =
      unless_found-Ends (λ u. t + 10 ≤ u) (λ u. t ≤ u) (try_node can 10 t x) (try_nodes can xs)
        (try_node-Ends 10 t x)
        (λ u h.
          weaken (λ v. u ≤ v) (λ v. t ≤ v) (try_nodes can xs u) (λ v g. omega arith)
            (try_nodes-Ends xs u))

  module _ (n : ℕ) (p : A) (appears : (t : ℕ) → n ≤ t → can t p ≡ true) where
    try_nodes_fails_early :
        (xs : List A) (t : ℕ) → IsIn p xs → Ends (λ u. (t < u) × (t < n)) (try_nodes can xs t)
    unfolding try_nodes IsIn
    try_nodes_fails_early [] t i = ground arith
    try_nodes_fails_early (y ∷ xs) t (inl e) = elim (Bool-cases (leb n t)) [
      | inl late ↦
          unless_found-Ends (λ u. true ≡ false) _ (try_node can 10 t y) (try_nodes can xs)
            (try_node_finds 9 t y (λ u. true ≡ false) (found (ground arith))) (λ u h. ground arith)
      | inr early ↦
          unless_found-Ends (λ u. t + 10 ≤ u) _ (try_node can 10 t y) (try_nodes can xs)
            (try_node-Ends 10 t y)
            (λ u h.
              weaken (λ v. u ≤ v) (λ v. (t < v) × (t < n)) (try_nodes can xs u)
                (λ v g. (omega arith, ground arith)) (try_nodes-Ends xs u))
    ]
      where
        found : n ≤ t → can t y ≡ true
        found le = subst (λ z. can t z ≡ true) (sym e) (appears t le)
    try_nodes_fails_early (y ∷ xs) t (inr i) =
        unless_found-Ends (λ u. t + 10 ≤ u) _ (try_node can 10 t y) (try_nodes can xs)
          (try_node-Ends 10 t y)
          (λ u h.
            weaken (λ v. (u < v) × (u < n)) (λ v. (t < v) × (t < n)) (try_nodes can xs u)
              (λ v g. (omega (arith, g.0), omega (arith, g.1))) (try_nodes_fails_early xs u i))

    find_node-Ends :
        (xs : List A) (rounds t : ℕ)
        → IsIn p xs
        → n ≤ t + rounds
        → Ends (λ u. true ≡ false) (find_node can (suc rounds) xs t)
    unfolding find_node
    find_node-Ends xs zero t i le =
        unless_found-Ends (λ u. (t < u) × (t < n)) _ (try_nodes can xs t) (find_node can zero xs)
          (try_nodes_fails_early xs t i) (λ u h. absurd (omega (arith, h.1)))
    find_node-Ends xs (suc rounds) t i le =
        unless_found-Ends (λ u. (t < u) × (t < n)) _ (try_nodes can xs t)
          (find_node can (suc rounds) xs) (try_nodes_fails_early xs t i)
          (λ u h. find_node-Ends xs rounds u i (omega (arith, h.0)))

-- If from some time on a node of the list can be accessed, the search of the constructor ends, after
-- as many rounds as there were waits until then and one more, with a node that can be accessed.
pub find_node_ends :
    {A : Type 0} (can : ℕ → A → Bool) (xs : List A) (n : ℕ) (p : A)
    → IsIn p xs
    → ((t : ℕ) → n ≤ t → can t p ≡ true)
    → (t : ℕ) × (x : A) × (find_node can (suc n) xs 0 ≡ (t, some x)) × (can t x ≡ true)
unfolding Ends
find_node_ends {A = A} can xs n p i appears =
    result (find_node can (suc n) xs 0) refl (find_node-Ends can n p appears xs n 0 i (omega arith))
  where
    result :
        (r : ℕ × Option A)
        → find_node can (suc n) xs 0 ≡ r
        → Ends can (λ u. true ≡ false) r
        → (t : ℕ) × (x : A) × (find_node can (suc n) xs 0 ≡ (t, some x)) × (can t x ≡ true)
    result (t, some x) e h = (t, x, e, h)
    result (t, none) e h = ground arith
