-- ===== src/Perfmgr/SessionTaskMap/History.antt =====
-- The map after any sequence of calls from the empty map.
use hardware_voltage_interfa.Base.{ℕ, List, [], ◌∷◌, Option-cases, inl, inr}
use hardware_voltage_interfa.Base.Int.{ℤ}
use hardware_voltage_interfa.Base.Dict.{find}
use hardware_voltage_interfa.Perfmgr.Votes.{Votes}
use hardware_voltage_interfa.Perfmgr.SessionTaskMap.{
  SessionTaskMap, SessionValueEntry, add, remove, remove_dead_task_session_map, change_votes,
  add_vote, add_gpu_vote,
}
use hardware_voltage_interfa.Perfmgr.SessionTaskMap.Invariant.{Inv, IsExact}
use hardware_voltage_interfa.Perfmgr.SessionTaskMap.Operations.{
  empty_map, empty_map-Inv, add-Inv, add-IsExact, remove-Inv, remove-IsExact,
}
use hardware_voltage_interfa.Perfmgr.SessionTaskMap.Replace.{
  after_replace, after_replace-Inv, remove_dead_task_session_map-Inv,
}

pub data Op : Type 0 where
  adds : ℕ → SessionValueEntry → List ℕ → Op
  removes : ℕ → Op
  replaces : ℕ → List ℕ → Op
  adds_vote : ℕ → ℕ → ℤ → ℤ → ℤ → ℤ → Op
  adds_gpu_vote : ℕ → ℕ → ℤ → ℤ → ℤ → Op
  removes_dead : ℕ → ℕ → Op

unfoldable pub step : Op → SessionTaskMap → SessionTaskMap
step (adds id sv tasks) m = (add id sv tasks m).0
step (removes id) m = (remove id m).0
step (replaces id tasks) m = after_replace id tasks m
step (adds_vote id vote lo hi start duration) m = add_vote id vote lo hi start duration m
step (adds_gpu_vote id vote capacity start duration) m =
    add_gpu_vote id vote capacity start duration m
step (removes_dead id task) m = (remove_dead_task_session_map id task m).0

unfoldable pub run : List Op → SessionTaskMap → SessionTaskMap
run [] m = m
run (op ∷ ops) m = run ops (step op m)

-- No call drops a dead task.
abbrev pub KeepsTasks : List Op → Type 0
KeepsTasks [] = Unit
KeepsTasks (removes_dead id task ∷ ops) = ⊥
KeepsTasks (op ∷ ops) = KeepsTasks ops

change_votes-Inv :
    (id : ℕ) (f : Votes → Votes) (m : SessionTaskMap)
    → Inv m
    → Inv (change_votes id f m) × (IsExact m → IsExact (change_votes id f m))
unfolding change_votes
change_votes-Inv id f m v = elim (Option-cases (find id m.sessions)) [
  | inl e ↦ rw (e, change_votes) (v, λ x. x)
  | inr (g, e) ↦
      rw (e, change_votes)
        (
          record {
            sessions_distinct = v.sessions_distinct;
            tasks_distinct = v.tasks_distinct;
            no_empty = v.no_empty;
            fresh = v.fresh;
            apart = v.apart;
            named = v.named;
            backed = v.backed;
            linked = v.linked;
          },
          λ x. x,
        )
]

step-Inv : (op : Op) (m : SessionTaskMap) → Inv m → Inv (step op m)
unfolding step add_vote add_gpu_vote
step-Inv (adds id sv tasks) m v = add-Inv id sv tasks m v
step-Inv (removes id) m v = remove-Inv id m v
step-Inv (replaces id tasks) m v = (after_replace-Inv id tasks m v).0
step-Inv (adds_vote id vote lo hi start duration) m v = (change_votes-Inv id _ m v).0
step-Inv (adds_gpu_vote id vote capacity start duration) m v = (change_votes-Inv id _ m v).0
step-Inv (removes_dead id task) m v = (remove_dead_task_session_map-Inv id task m v).0

step-IsExact :
    (op : Op) (ops : List Op) (m : SessionTaskMap)
    → KeepsTasks (op ∷ ops)
    → Inv m
    → IsExact m
    → IsExact (step op m) × KeepsTasks ops
unfolding step add_vote add_gpu_vote
step-IsExact (adds id sv tasks) ops m k v x = (add-IsExact id sv tasks m v x, k)
step-IsExact (removes id) ops m k v x = (remove-IsExact id m v x, k)
step-IsExact (replaces id tasks) ops m k v x = ((after_replace-Inv id tasks m v).1 x, k)
step-IsExact (adds_vote id vote lo hi start duration) ops m k v x =
    ((change_votes-Inv id _ m v).1 x, k)
step-IsExact (adds_gpu_vote id vote capacity start duration) ops m k v x =
    ((change_votes-Inv id _ m v).1 x, k)
step-IsExact (removes_dead id task) ops m k v x = absurd k

run_from-Inv : (ops : List Op) (m : SessionTaskMap) → Inv m → Inv (run ops m)
unfolding run
run_from-Inv [] m v = v
run_from-Inv (op ∷ ops) m v = run_from-Inv ops (step op m) (step-Inv op m v)

run_from-IsExact :
    (ops : List Op) (m : SessionTaskMap) → KeepsTasks ops → Inv m → IsExact m → IsExact (run ops m)
unfolding run
run_from-IsExact [] m k v x = x
run_from-IsExact (op ∷ ops) m k v x =
    let (exact, rest) = step-IsExact op ops m k v x in
    run_from-IsExact ops (step op m) rest (step-Inv op m v) exact

-- Whatever is called, from the empty map on: each map holds a key once, a task's vector is never
-- empty, it holds only entries of sessions that are there, under that session's own id and address,
-- and no more often than the session lists the task.
pub run-Inv :
    (ops : List Op) (entries : ℕ → SessionValueEntry) (votes : ℕ → Votes)
    → Inv (run ops (empty_map entries votes))
run-Inv ops entries votes = run_from-Inv ops _ (empty_map-Inv entries votes).0

-- As long as no dead task is dropped, a task's vector holds a session exactly as often as the session
-- lists the task.
pub run-IsExact :
    (ops : List Op) (entries : ℕ → SessionValueEntry) (votes : ℕ → Votes)
    → KeepsTasks ops
    → IsExact (run ops (empty_map entries votes))
run-IsExact ops entries votes k =
    run_from-IsExact ops _ k (empty_map-Inv entries votes).0 (empty_map-Inv entries votes).1
