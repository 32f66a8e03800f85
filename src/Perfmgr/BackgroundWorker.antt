-- ===== src/Perfmgr/BackgroundWorker.antt =====
-- power-libperfmgr/aidl/BackgroundWorker.h and BackgroundWorker.cpp: a pool that runs work packages at
-- their deadlines, and the workers that hand it packages. A worker is registered in the pool under
-- its address. `schedule` is one step: threads that schedule on one worker at once are left out. The
-- counter of packages is taken not to wrap around.
pub mod Packages
pub mod Turns
mod Tests
use hardware_voltage_interfa.Base.{
  ℕ, suc, Bool, true, false, Option, none, some, List, [], ◌∷◌, if◌then◌else◌,
}
use hardware_voltage_interfa.Base.Int.{ℤ, ltb_ℤ}
use hardware_voltage_interfa.Base.Dict.{Dict, find, assign, erase, update, contains}

pub record Package : Type 0 where
  pub deadline : ℤ
  pub worker_id : ℕ
  pub package_id : ℕ

pub record Worker (P : Type 0) : Type 0 where
  pub package_id_counter : ℕ
  pub packages : Dict P

-- The pool, its callbacks with the workers that they process.
pub record Pool (P : Type 0) : Type 0 where
  pub running : Bool
  pub package_queue : List Package
  pub callback_map : Dict (Worker P)

-- `operator<` of packages.
unfoldable pub has_less_priority : Package → Package → Bool
has_less_priority a b = ltb_ℤ b.deadline a.deadline

-- `top` and `pop` of the `std::priority_queue`: a package that is not less than any, and the others. Of
-- equal packages the queue of C++ may take any; here it is the one in front.
unfoldable pub take_top : Package → List Package → Package × List Package
unfolding has_less_priority
take_top a [] = (a, [])
take_top a (b ∷ q) =
    let later = has_less_priority a b in
    let rest = take_top (if later then b else a) q in (rest.0, (if later then a else b) ∷ rest.1)

module _ {P : Type 0} where
  -- The constructor of a worker: `addCallback` keeps one that is there.
  unfoldable pub add_worker : ℕ → Pool P → Pool P
  add_worker id s = if contains id s.callback_map then s else record s {
    callback_map = assign id (record { package_id_counter = 0; packages = [] }) s.callback_map;
  }

  unfoldable pub remove_worker : ℕ → Pool P → Pool P
  remove_worker id s = record s { callback_map = erase id s.callback_map }

  -- `TemplatePriorityQueueWorker::schedule`: the new id, and the worker that holds the package.
  unfoldable pub store_package : P → Worker P → Worker P
  store_package p w = record {
    package_id_counter = suc w.package_id_counter;
    packages = assign (suc w.package_id_counter) p w.packages;
  }

  unfoldable pub schedule_at : ℕ → P → ℤ → Pool P → Option (Worker P) → Pool P
  unfolding store_package
  schedule_at id p t s none = s
  schedule_at id p t s (some w) = record s {
    package_queue =
        record { deadline = t; worker_id = id; package_id = suc w.package_id_counter }
        ∷ s.package_queue;
    callback_map = assign id (store_package p w) s.callback_map;
  }

  unfoldable pub schedule : ℕ → P → ℤ → Pool P → Pool P
  unfolding schedule_at
  schedule id p t s = schedule_at id p t s (find id s.callback_map)

  -- `process`, of a worker that is there: the package is handed to the worker's callback.
  unfoldable pub process : ℕ → ℕ → Worker P → Option P → Pool P → Pool P × List (ℕ × P)
  process id k w none s = (s, [])
  process id k w (some p) s = (
    record s {
      callback_map = assign id (record w { packages = erase k w.packages }) s.callback_map;
    },
    (id, p) ∷ [],
  )

  unfoldable pub call_back : ℕ → ℕ → Pool P → Option (Worker P) → Pool P × List (ℕ × P)
  unfolding process
  call_back id k s none = (s, [])
  call_back id k s (some w) = process id k w (find k w.packages) s

  -- One turn of the loop at a time: nothing, while the earliest deadline lies in the future.
  unfoldable pub loop_turn : ℤ → Pool P → List Package → Pool P × List (ℕ × P)
  unfolding take_top call_back
  loop_turn now s [] = (s, [])
  loop_turn now s (a ∷ q) =
      let top = take_top a q in
      let done =
        call_back top.0.worker_id top.0.package_id (record s { package_queue = top.1 })
          (find top.0.worker_id s.callback_map) in
      if ltb_ℤ now top.0.deadline then (s, []) else done

  unfoldable pub loop : ℤ → Pool P → Pool P × List (ℕ × P)
  unfolding loop_turn
  loop now s = if s.running then loop_turn now s s.package_queue else (s, [])

  -- The destructor of the pool.
  unfoldable pub stop : Pool P → Pool P
  stop s = record s { running = false }
