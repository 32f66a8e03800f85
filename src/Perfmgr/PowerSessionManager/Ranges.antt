-- ===== src/Perfmgr/PowerSessionManager/Ranges.antt =====
-- What applyUclampLocked asks of the system for the tasks of a session.
use mathlib.Core.Path.{subst}
use hardware_voltage_interfa.Base.{
  ℕ, ◌≡◌, refl, sym, ap, ◌∙◌, Bool, true, not, some, List, [], ◌∷◌, if◌then◌else◌, arith,
}
use hardware_voltage_interfa.Base.Int.{ℤ, pos, ◌≤ℤ◌, max_ℤ, min_ℤ}
use hardware_voltage_interfa.Base.Dict.{find, assign, find-assign}
use hardware_voltage_interfa.Perfmgr.Votes.{UclampRange}
use hardware_voltage_interfa.Perfmgr.SessionTaskMap.{
  SessionTaskMap, ValEntry, get_task_ids, remove_dead_task_session_map,
}
use hardware_voltage_interfa.Perfmgr.PowerSessionManager.{
  Settings, Call, sched_setattr, bound_range, apply_loop, apply_to, apply_uclamp,
}

-- A range that the system takes.
unfoldable pub IsLegal : UclampRange → Type 0
IsLegal r = (pos 0 ≤ℤ r.uclamp_min) × (r.uclamp_min ≤ℤ r.uclamp_max) × (r.uclamp_max ≤ℤ pos 1024)

-- One call for each task, in order, with a legal range.
unfoldable pub AreFor : List ℕ → List Call → Type 0
unfolding IsLegal
AreFor [] [] = Unit
AreFor (tid ∷ tids) (sched_setattr t r ∷ calls) = (t ≡ tid) × IsLegal r × AreFor tids calls
AreFor _ _ = ⊥

unfoldable pub alive : (ℕ → Bool) → List ℕ → List ℕ
alive dead [] = []
alive dead (tid ∷ tids) = if dead tid then alive dead tids else tid ∷ alive dead tids

bound_range-IsLegal : (r : UclampRange) → IsLegal (bound_range r)
unfolding IsLegal bound_range max_ℤ min_ℤ
bound_range-IsLegal r = (ground arith, ground arith, ground arith)

apply_loop-AreFor :
    (c : Settings) (dead : ℕ → Bool) (id : ℕ) (t : ℤ) (tids : List ℕ) (m : SessionTaskMap)
    → AreFor tids (apply_loop c dead id t tids m).2
unfolding AreFor apply_loop
apply_loop-AreFor c dead id t [] m = tt
apply_loop-AreFor c dead id t (tid ∷ tids) m =
    (refl, bound_range-IsLegal _, apply_loop-AreFor c dead id t tids _)

apply_loop-alive :
    (c : Settings) (dead : ℕ → Bool) (id : ℕ) (t : ℤ) (tids : List ℕ) (m : SessionTaskMap)
    → (apply_loop c dead id t tids m).1 ≡ alive dead tids
unfolding apply_loop alive
apply_loop-alive c dead id t [] m = refl
apply_loop-alive c dead id t (tid ∷ tids) m =
    ap (λ ts. if dead tid then ts else tid ∷ ts)
      (apply_loop-alive c dead id t tids
        (if dead tid then (remove_dead_task_session_map id tid m).0 else m))

relinked-tasks :
    (n : SessionTaskMap) (id : ℕ) (v : ValEntry)
    → get_task_ids id (record n { sessions = assign id v n.sessions }) ≡ v.linked_tasks
unfolding get_task_ids
relinked-tasks n id v = ground (arith, find-assign id id v n.sessions)

-- Where uclamp is on, applying it to a session that is there asks the system once for each of its
-- tasks, in their order, with a range in which 0, the minimum, the maximum and 1024 stand in order;
-- and the session then links the tasks that are not dead, in the same order.
pub apply_uclamp-AreFor :
    (c : Settings) (dead : ℕ → Bool) (id : ℕ) (t : ℤ) (m : SessionTaskMap) (e : ValEntry)
    → c.uclamp_min_on ≡ true
    → find id m.sessions ≡ some e
    → AreFor (get_task_ids id m) (apply_uclamp c dead id t m).1
      × (get_task_ids id (apply_uclamp c dead id t m).0 ≡ alive dead (get_task_ids id m))
unfolding apply_uclamp apply_to get_task_ids
apply_uclamp-AreFor c dead id t m e on found =
    let calls = apply_loop-AreFor c dead id t e.linked_tasks m in
    let kept = apply_loop-alive c dead id t e.linked_tasks m in
    let n = (apply_loop c dead id t e.linked_tasks m).0 in
    let v : ValEntry = record {
      val = e.val;
      linked_tasks = (apply_loop c dead id t e.linked_tasks m).1;
    } in
    let result : SessionTaskMap × List Call = (
      record n { sessions = assign id v n.sessions },
      (apply_loop c dead id t e.linked_tasks m).2,
    ) in
    let applied : apply_uclamp c dead id t m ≡ result =
      ap (apply_to c dead id t m) found ∙ ap (λ b. if not b then (m, []) else result) on in
    let tasks : get_task_ids id m ≡ e.linked_tasks = ground arith in
    (
      subst (λ ts. AreFor ts (apply_uclamp c dead id t m).1) (sym tasks)
          (subst (λ x. AreFor e.linked_tasks x.1) (sym applied) calls),
      ap (λ x. get_task_ids id x.0) applied
          ∙ relinked-tasks n id v
          ∙ kept
          ∙ ap (alive dead) (sym tasks),
    )
