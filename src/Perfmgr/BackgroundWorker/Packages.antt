-- ===== src/Perfmgr/BackgroundWorker/Packages.antt =====
-- power-libperfmgr/aidl/BackgroundWorker.cpp: no package is lost.
use mathlib.Core.Path.{subst}
use mathlib.Core.Option.{some_inj}
use hardware_voltage_interfa.Base.{
  ℕ, suc, ◌≡◌, ◌≢◌, ◌⊎◌, inl, inr, refl, sym, ap, ◌∙◌, Bool, true, false, Option, none, some, List,
  [], ◌∷◌, ◌==◌, ==_iff, if◌then◌else◌, Bool-cases, arith,
}
use hardware_voltage_interfa.Base.Int.{ℤ, ltb_ℤ}
use hardware_voltage_interfa.Base.Dict.{
  Dict, find, assign, erase, contains, Distinct, find-assign, find-erase_ne, find-erase_self,
  erase-Distinct, assign-Distinct,
}
use hardware_voltage_interfa.Perfmgr.BackgroundWorker.{
  Package, Worker, Pool, take_top, add_worker, remove_worker, store_package, schedule_at, schedule,
  process, call_back, loop_turn, loop, stop,
}

-- A package of a worker waits in the queue.
unfoldable pub Waits : ℕ → ℕ → List Package → Type 0
Waits id k [] = true ≡ false
Waits id k (e ∷ q) = ((e.worker_id ≡ id) × (e.package_id ≡ k)) ⊎ Waits id k q

take_top-Waits :
    (id k : ℕ) (a : Package) (q : List Package)
    → Waits id k (a ∷ q)
    → Waits id k ((take_top a q).0 ∷ (take_top a q).1)
unfolding Waits take_top
take_top-Waits id k a [] h = h
take_top-Waits id k a (b ∷ q) h = ground (arith, take_top-Waits id k a q, take_top-Waits id k b q)

-- What a map holds after a write.
assigned :
    {V : Type 0} (id j : ℕ) (u v : V) (m : Dict V)
    → find j (assign id u m) ≡ some v
    → ((id ≡ j) × (u ≡ v)) ⊎ ((id ≢ j) × (find j m ≡ some v))
assigned id j u v m h = elim (Bool-cases (id == j)) [
  | inl same ↦ inl (ground (arith, ==_iff id j), some_inj.0 (ground (arith, find-assign id j u m)))
  | inr other ↦ inr (ground (arith, ==_iff id j), ground (arith, find-assign id j u m))
]

none_ne_some : {V : Type 0} {v : V} → ¬ (none ≡ some v)
none_ne_some h = ground arith

no_package : {V : Type 0} (k : ℕ) → none ≡ find {V = V} k []
unfolding find
no_package k = refl

module _ {P : Type 0} where
  -- Every package that a worker holds waits in the queue.
  pub record IsComplete (s : Pool P) : Type 0 where
    pub waiting :
        (id k : ℕ) (w : Worker P) (p : P)
        → find id s.callback_map ≡ some w
        → find k w.packages ≡ some p
        → Waits id k s.package_queue
    pub packages_apart :
        (id : ℕ) (w : Worker P) → find id s.callback_map ≡ some w → Distinct w.packages
    pub workers_apart : Distinct s.callback_map

  schedule_at-IsComplete :
      (id : ℕ) (p : P) (t : ℤ) (s : Pool P) (o : Option (Worker P))
      → find id s.callback_map ≡ o
      → IsComplete s
      → IsComplete (schedule_at id p t s o)
  unfolding schedule_at store_package Waits
  schedule_at-IsComplete id p t s none e i = i
  schedule_at-IsComplete id p t s (some w) e i = record {
    waiting = λ j k v x fj fk. elim (assigned id j (store_package p w) v s.callback_map fj) [
      | inr (other, there) ↦ inr (i.waiting j k v x there fk)
      | inl (same, now) ↦
          elim (assigned (suc w.package_id_counter) k p x w.packages
            (ap (λ u. find k u.packages) now ∙ fk)) [
              | inl (new, what) ↦ inl (same, new)
              | inr (older, old) ↦
                  inr (subst (λ n. Waits n k s.package_queue) same (i.waiting id k w x e old))
            ]
    ];
    packages_apart = λ j v fj. elim (assigned id j (store_package p w) v s.callback_map fj) [
      | inr (other, there) ↦ i.packages_apart j v there
      | inl (same, now) ↦
          subst (λ (u : Worker P). Distinct u.packages) now
            (assign-Distinct (suc w.package_id_counter) p w.packages (i.packages_apart id w e))
    ];
    workers_apart = assign-Distinct id (store_package p w) s.callback_map i.workers_apart;
  }

  -- The queue without the package that was taken from it.
  IsRest : ℕ → ℕ → List Package → Pool P → Type 0
  IsRest id k q s = (j n : ℕ) → Waits j n s.package_queue → ((id ≡ j) × (k ≡ n)) ⊎ Waits j n q

  process-IsComplete :
      (id k : ℕ) (q : List Package) (s : Pool P) (w : Worker P) (o : Option P)
      → find k w.packages ≡ o
      → find id s.callback_map ≡ some w
      → IsRest id k q s
      → IsComplete s
      → IsComplete (process id k w o (record s { package_queue = q })).0
  unfolding process IsRest
  process-IsComplete id k q s w none ek e rest i = record {
    waiting = λ j n v x fj fk. elim (rest j n (i.waiting j n v x fj fk)) [
      | inr later ↦ later
      | inl (same, what) ↦ absurd (gone j n v x same what fj fk)
    ];
    packages_apart = i.packages_apart;
    workers_apart = i.workers_apart;
  }
    where
      gone :
          (j n : ℕ) (v : Worker P) (x : P)
          → id ≡ j
          → k ≡ n
          → find j s.callback_map ≡ some v
          → ¬ (find n v.packages ≡ some x)
      gone j n v x same what fj fk = none_ne_some (
          sym ek
          ∙ ap (λ m. find m w.packages) what
          ∙ ap (λ (u : Worker P). find n u.packages)
              (some_inj.0 (sym e ∙ ap (λ m. find m s.callback_map) same ∙ fj))
          ∙ fk)
  process-IsComplete id k q s w (some p) ek e rest i = record {
    waiting = λ j n v x fj fk. elim (assigned id j left v s.callback_map fj) [
      | inr (other, there) ↦ elim (rest j n (i.waiting j n v x there fk)) [
        | inr later ↦ later
        | inl (same, what) ↦ absurd (other same)
      ]
      | inl (same, now) ↦
          subst (λ m. Waits m n q) same
            (stays n x (ap (λ (u : Worker P). find n u.packages) now ∙ fk))
    ];
    packages_apart = λ j v fj. elim (assigned id j left v s.callback_map fj) [
      | inr (other, there) ↦ i.packages_apart j v there
      | inl (same, now) ↦
          subst (λ (u : Worker P). Distinct u.packages) now
            (erase-Distinct k w.packages (i.packages_apart id w e))
    ];
    workers_apart = assign-Distinct id left s.callback_map i.workers_apart;
  }
    where
      left : Worker P
      left = record w { packages = erase k w.packages }

      stays : (n : ℕ) (x : P) → find n (erase k w.packages) ≡ some x → Waits id n q
      stays n x fk = elim (Bool-cases (k == n)) [
        | inl same ↦ absurd (
            none_ne_some (
              sym (find-erase_self k w.packages (i.packages_apart id w e))
              ∙ ap (λ m. find m (erase k w.packages)) (ground (arith, ==_iff k n))
              ∙ fk))
        | inr other ↦
            let ne : k ≢ n = ground (arith, ==_iff k n) in
            elim (rest id n (i.waiting id n w x e (sym (find-erase_ne k n w.packages ne) ∙ fk))) [
              | inr later ↦ later
              | inl (same, what) ↦ absurd (ne what)
            ]
      ]

  call_back-IsComplete :
      (id k : ℕ) (q : List Package) (s : Pool P) (o : Option (Worker P))
      → find id s.callback_map ≡ o
      → IsRest id k q s
      → IsComplete s
      → IsComplete (call_back id k (record s { package_queue = q }) o).0
  unfolding call_back IsRest
  call_back-IsComplete id k q s none e rest i = record {
    waiting = λ j n v x fj fk. elim (rest j n (i.waiting j n v x fj fk)) [
      | inr later ↦ later
      | inl (same, what) ↦ absurd (none_ne_some (sym e ∙ ap (λ m. find m s.callback_map) same ∙ fj))
    ];
    packages_apart = i.packages_apart;
    workers_apart = i.workers_apart;
  }
  call_back-IsComplete id k q s (some w) e rest i =
      process-IsComplete id k q s w (find k w.packages) refl e rest i

  either-IsComplete :
      (b : Bool) (one other : Pool P)
      → IsComplete one
      → IsComplete other
      → IsComplete (if b then one else other)
  either-IsComplete true one other h k = h
  either-IsComplete false one other h k = k

  either_turn :
      {B : Type 0} (b : Bool) (one other : Pool P × B)
      → IsComplete one.0
      → IsComplete other.0
      → IsComplete (if b then one else other).0
  either_turn true one other h k = h
  either_turn false one other h k = k

  loop_turn-IsComplete :
      (now : ℤ) (s : Pool P) (q : List Package)
      → s.package_queue ≡ q
      → IsComplete s
      → IsComplete (loop_turn now s q).0
  unfolding loop_turn IsRest Waits
  loop_turn-IsComplete now s [] e i = i
  loop_turn-IsComplete now s (a ∷ q) e i =
      either_turn (ltb_ℤ now top.0.deadline) (s, []) _ i
        (call_back-IsComplete top.0.worker_id top.0.package_id top.1 s
          (find top.0.worker_id s.callback_map) refl
          (λ j n h. take_top-Waits j n a q (subst (Waits j n) e h)) i)
    where
      top : Package × List Package
      top = take_top a q

  loop-IsComplete : (now : ℤ) (s : Pool P) → IsComplete s → IsComplete (loop now s).0
  unfolding loop
  loop-IsComplete now s i =
      either_turn s.running _ (s, []) (loop_turn-IsComplete now s s.package_queue refl i) i

  add_worker-IsComplete : (id : ℕ) (s : Pool P) → IsComplete s → IsComplete (add_worker id s)
  unfolding add_worker
  add_worker-IsComplete id s i = either-IsComplete (contains id s.callback_map) s _ i (record {
    waiting = λ j k v x fj fk. elim (assigned id j fresh v s.callback_map fj) [
      | inr (other, there) ↦ i.waiting j k v x there fk
      | inl (same, now) ↦
          absurd (none_ne_some (nothing k ∙ ap (λ (u : Worker P). find k u.packages) now ∙ fk))
    ];
    packages_apart = λ j v fj. elim (assigned id j fresh v s.callback_map fj) [
      | inr (other, there) ↦ i.packages_apart j v there
      | inl (same, now) ↦ subst (λ (u : Worker P). Distinct u.packages) now tt
    ];
    workers_apart = assign-Distinct id fresh s.callback_map i.workers_apart;
  })
    where
      fresh : Worker P
      fresh = record { package_id_counter = 0; packages = [] }

      nothing : (k : ℕ) → none ≡ find k fresh.packages
      nothing k = no_package k

  remove_worker-IsComplete : (id : ℕ) (s : Pool P) → IsComplete s → IsComplete (remove_worker id s)
  unfolding remove_worker
  remove_worker-IsComplete id s i = record {
    waiting = λ j k v x fj fk. i.waiting j k v x (before j v fj) fk;
    packages_apart = λ j v fj. i.packages_apart j v (before j v fj);
    workers_apart = erase-Distinct id s.callback_map i.workers_apart;
  }
    where
      before :
          (j : ℕ) (v : Worker P)
          → find j (erase id s.callback_map) ≡ some v
          → find j s.callback_map ≡ some v
      before j v fj = elim (Bool-cases (id == j)) [
        | inl same ↦ absurd (
            none_ne_some (
              sym (find-erase_self id s.callback_map i.workers_apart)
              ∙ ap (λ m. find m (erase id s.callback_map)) (ground (arith, ==_iff id j))
              ∙ fj))
        | inr other ↦ sym (find-erase_ne id j s.callback_map (ground (arith, ==_iff id j))) ∙ fj
      ]

-- What the pool, its workers and its thread do.
pub data Step (P : Type 0) : Type 0 where
  worker_added : ℕ → Step P
  worker_removed : ℕ → Step P
  scheduled : ℕ → P → ℤ → Step P
  looped : ℤ → Step P
  stopped : Step P

unfoldable pub step : {P : Type 0} → Step P → Pool P → Pool P
step (worker_added id) s = add_worker id s
step (worker_removed id) s = remove_worker id s
step (scheduled id p t) s = schedule id p t s
step (looped now) s = (loop now s).0
step stopped s = stop s

unfoldable pub run : {P : Type 0} → List (Step P) → Pool P → Pool P
unfolding step
run [] s = s
run (x ∷ xs) s = run xs (step x s)

step-IsComplete : {P : Type 0} (x : Step P) (s : Pool P) → IsComplete s → IsComplete (step x s)
unfolding step schedule stop
step-IsComplete (worker_added id) s i = add_worker-IsComplete id s i
step-IsComplete (worker_removed id) s i = remove_worker-IsComplete id s i
step-IsComplete (scheduled id p t) s i = schedule_at-IsComplete id p t s _ refl i
step-IsComplete (looped now) s i = loop-IsComplete now s i
step-IsComplete stopped s i = record {
  waiting = i.waiting;
  packages_apart = i.packages_apart;
  workers_apart = i.workers_apart;
}

-- Whatever workers come and go, packages are scheduled and turns of the loop are taken, in any order:
-- every package that a worker still holds waits in the queue of the pool under the worker's address
-- and the package's id, and no two share an id.
pub run-IsComplete :
    {P : Type 0} (xs : List (Step P)) (s : Pool P) → IsComplete s → IsComplete (run xs s)
unfolding run
run-IsComplete [] s i = i
run-IsComplete (x ∷ xs) s i = run-IsComplete xs (step x s) (step-IsComplete x s i)
