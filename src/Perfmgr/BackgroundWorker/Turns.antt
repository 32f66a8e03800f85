-- ===== src/Perfmgr/BackgroundWorker/Turns.antt =====
-- power-libperfmgr/aidl/BackgroundWorker.cpp: what a turn of the loop takes, calls back and leaves.
use mathlib.Core.List.{Permᴰ}
use hardware_voltage_interfa.Base.{
  ℕ, ◌≡◌, ◌⊎◌, inl, inr, refl, Bool, true, false, some, List, [], ◌∷◌, Bool-cases, Option-cases,
  if◌then◌else◌, arith,
}
use hardware_voltage_interfa.Base.Int.{ℤ, ltb_ℤ, ◌≤ℤ◌}
use hardware_voltage_interfa.Base.Dict.{find, assign, erase}
use hardware_voltage_interfa.Perfmgr.BackgroundWorker.{
  Package, Worker, Pool, take_top, process, call_back, loop_turn, loop,
}

-- No package has an earlier deadline.
unfoldable pub AreLater : ℤ → List Package → Type 0
AreLater t [] = Unit
AreLater t (e ∷ q) = (t ≤ℤ e.deadline) × AreLater t q

-- No package is due.
unfoldable pub AreAhead : ℤ → List Package → Type 0
AreAhead now [] = Unit
AreAhead now (e ∷ q) = (ltb_ℤ now e.deadline ≡ true) × AreAhead now q

take_top-AreLater :
    (a : Package) (q : List Package)
    → ((take_top a q).0.deadline ≤ℤ a.deadline)
      × AreLater (take_top a q).0.deadline (take_top a q).1
unfolding AreLater take_top
take_top-AreLater a [] = (ground arith, tt)
take_top-AreLater a (b ∷ q) = ground (arith, take_top-AreLater a q, take_top-AreLater b q)

take_top-AreAhead :
    (now : ℤ) (a : Package) (q : List Package)
    → ltb_ℤ now (take_top a q).0.deadline ≡ true
    → AreAhead now (a ∷ q)
unfolding AreAhead take_top
take_top-AreAhead now a [] h = (h, tt)
take_top-AreAhead now a (b ∷ q) h =
    ground (arith, take_top-AreAhead now a q, take_top-AreAhead now b q)

-- What is taken and what is left are the queue, each package as often.
take_top-Perm :
    (a : Package) (q : List Package) → Permᴰ (a ∷ q) ((take_top a q).0 ∷ (take_top a q).1)
unfolding take_top
take_top-Perm a [] = Permᴰ.cons refl Permᴰ.nil
take_top-Perm a (b ∷ q) = elim (Bool-cases (ltb_ℤ b.deadline a.deadline)) [
  | inl e ↦ rw e (Permᴰ.trans (Permᴰ.cons refl (take_top-Perm b q)) (Permᴰ.swap refl refl))
  | inr e ↦ rw e (
      Permᴰ.trans (Permᴰ.swap refl refl)
        (Permᴰ.trans (Permᴰ.cons refl (take_top-Perm a q)) (Permᴰ.swap refl refl)))
]

-- Of the packages of a pool that runs, `e` is due, no other is due earlier, and the others are `q`.
pub record IsNext {P : Type 0} (now : ℤ) (s : Pool P) (e : Package) (q : List Package)
    : Type 0 where
  pub runs : s.running ≡ true
  pub due : e.deadline ≤ℤ now
  pub earliest : AreLater e.deadline q
  pub others : Permᴰ s.package_queue (e ∷ q)

-- The worker of a package holds what was scheduled with it.
unfoldable pub Holds : {P : Type 0} → Pool P → Package → Worker P → P → Type 0
Holds s e w p = (find e.worker_id s.callback_map ≡ some w) × (find e.package_id w.packages ≡ some p)

-- What a turn of the loop may be: a wait; a package whose worker is gone or does not hold it, which is
-- dropped; or one that is handed to the callback of its worker, once, and then no longer held.
pub data IsTurn {P : Type 0} (now : ℤ) (s : Pool P) (r : Pool P × List (ℕ × P)) : Type 0 where
  waits : (s.running ≡ false) ⊎ AreAhead now s.package_queue → r ≡ (s, []) → IsTurn now s r
  drops :
      (e : Package) (q : List Package)
      → IsNext now s e q
      → ((w : Worker P) (p : P) → ¬ Holds s e w p)
      → r ≡ (record s { package_queue = q }, [])
      → IsTurn now s r
  calls :
      (e : Package) (q : List Package) (w : Worker P) (p : P)
      → IsNext now s e q
      → Holds s e w p
      → r ≡ (
        record s {
          package_queue = q;
          callback_map =
              assign e.worker_id
                (record w { packages = erase e.package_id w.packages })
                s.callback_map;
        },
        (e.worker_id, p) ∷ [],
      )
      → IsTurn now s r

module _ {P : Type 0} (now : ℤ) (s : Pool P) where
  call_back-IsTurn :
      (e : Package) (q : List Package)
      → IsNext now s e q
      → IsTurn now s (
          call_back e.worker_id e.package_id
            (record s { package_queue = q })
            (find e.worker_id s.callback_map))
  unfolding call_back process Holds
  call_back-IsTurn e q next = elim (Option-cases (find e.worker_id s.callback_map)) [
    | inl gone ↦ drops e q next (λ w p h. ground arith) (rw gone refl)
    | inr (w, there) ↦ elim (Option-cases (find e.package_id w.packages)) [
      | inl gone ↦ drops e q next (λ v p h. ground arith) (rw (there, gone) refl)
      | inr (p, held) ↦ calls e q w p next (there, held) (rw (there, held) refl)
    ]
  ]

  loop_turn-IsTurn :
      (q : List Package) → s.package_queue ≡ q → s.running ≡ true → IsTurn now s (loop_turn now s q)
  unfolding loop_turn AreAhead
  loop_turn-IsTurn [] e on = waits (inr (rw e tt)) refl
  loop_turn-IsTurn (a ∷ q) e on =
      let top = take_top a q in
      elim (Bool-cases (ltb_ℤ now top.0.deadline)) [
        | inl ahead ↦ waits (inr (rw e (take_top-AreAhead now a q ahead))) (rw ahead refl)
        | inr due ↦ rw due (
            call_back-IsTurn top.0 top.1 (record {
              runs = on;
              due = ground arith;
              earliest = (take_top-AreLater a q).1;
              others = rw e (take_top-Perm a q);
            }))
      ]

  running-IsTurn :
      (b : Bool) (r : Pool P × List (ℕ × P))
      → s.running ≡ b
      → (b ≡ true → IsTurn now s r)
      → IsTurn now s (if b then r else (s, []))
  running-IsTurn true r e turn = turn refl
  running-IsTurn false r e turn = waits (inl e) refl

  -- A turn of the loop waits, and changes nothing, exactly where the pool does not run or no package is
  -- due. Otherwise it takes one package that is due, than which no other is due earlier, and leaves
  -- every other in the queue as often as it was there. It calls back at most once: the worker that
  -- the package names, with what that worker holds under the package's id, and the worker no
  -- longer holds it; where there is no such worker or it holds no such package, nothing else
  -- changes.
  pub loop-IsTurn : IsTurn now s (loop now s)
  unfolding loop
  loop-IsTurn = running-IsTurn s.running _ refl (λ on. loop_turn-IsTurn s.package_queue refl on)
