-- ===== src/Perfmgr/SessionTaskMap/Replace.antt =====
-- `removeDeadTaskSessionMap` and `replace`, the composed operation.
use hardware_voltage_interfa.Base.{
  ℕ, ◌-◌, ◌≡◌, ◌≢◌, refl, sym, ap, ◌∙◌, true, ◌&&◌, none, some, List, [], ◌∷◌, arith, ◌==◌,
  if◌then◌else◌, Option-cases, Bool-cases, ==_iff, inl, inr,
}
use hardware_voltage_interfa.Base.Dict.{Dict, find}
use hardware_voltage_interfa.Perfmgr.SessionTaskMap.{
  SessionTaskMap, SessionValueEntry, ValEntry, holds, unlink, add, remove,
  remove_dead_task_session_map, replace, unmapped, get_task_ids, find_session,
}
use hardware_voltage_interfa.Perfmgr.SessionTaskMap.Links.{
  links, links-unlink, unlink-Distinct, unlink-NoEmpty,
}
use hardware_voltage_interfa.Perfmgr.SessionTaskMap.Invariant.{Inv, IsExact}
use hardware_voltage_interfa.Perfmgr.SessionTaskMap.Operations.{
  add-Inv, add-IsExact, add_new, remove-Inv, remove-IsExact, remove_lem,
}

module _ (m : SessionTaskMap) (id task : ℕ) (owner : ValEntry) (v : Inv m)
    (present : find id m.sessions ≡ some owner) where
  abbrev unlinked : SessionTaskMap
  unlinked = record m { tasks = unlink owner.val m.tasks task }

  links-unlinked :
      (t p : ℕ)
      → links unlinked.tasks t p
        ≡ links m.tasks t p - (if task == t && owner.val == p then 1 else 0)
  links-unlinked t p = links-unlink owner.val m.tasks task t p v.tasks_distinct

  unlinked-Inv : Inv unlinked
  unlinked-Inv = record {
    sessions_distinct = v.sessions_distinct;
    tasks_distinct = unlink-Distinct owner.val m.tasks task v.tasks_distinct;
    no_empty = unlink-NoEmpty owner.val m.tasks task v.tasks_distinct v.no_empty;
    fresh = v.fresh;
    apart = v.apart;
    named = v.named;
    backed = λ t p h. v.backed t p (omega (arith, links-unlinked t p));
    linked = λ j t e h. omega (arith, links-unlinked t e.val, v.linked j t e h);
  }

-- Dropping a dead task from a session keeps the invariant; the session's own list of tasks stays.
pub remove_dead_task_session_map-Inv :
    (id task : ℕ) (m : SessionTaskMap)
    → Inv m
    → Inv (remove_dead_task_session_map id task m).0
      × ((remove_dead_task_session_map id task m).0.sessions ≡ m.sessions)
unfolding remove_dead_task_session_map
remove_dead_task_session_map-Inv id task m v = elim (Option-cases (find id m.sessions)) [
  | inl e ↦ rw (e, remove_dead_task_session_map) (v, refl)
  | inr (f, e) ↦ elim (Option-cases (find task m.tasks)) [
    | inl none_there ↦ rw (e, none_there, remove_dead_task_session_map) (v, refl)
    | inr (ps, there) ↦ elim (Bool-cases (holds f.val ps)) [
      | inl held ↦
          rw (e, there, held, remove_dead_task_session_map) (unlinked-Inv m id task f v e, refl)
      | inr free ↦ rw (e, there, free, remove_dead_task_session_map) (v, refl)
    ]
  ]
]

unmapped-holds :
    (m : Dict (List ℕ)) (tid : ℕ) (tids : List ℕ)
    → holds tid (unmapped m tids) ≡ true
    → (find tid m ≡ none) × (holds tid tids ≡ true)
unfolding unmapped holds
unmapped-holds m tid [] h = cc
unmapped-holds m tid (u ∷ tids) h = elim (Option-cases (find u m)) [
  | inl e ↦ elim (Bool-cases (u == tid)) [
    | inl hit ↦ (ap (λ x. find x m) (sym ((==_iff u tid).0 hit)) ∙ e, rw hit)
    | inr miss ↦
        let (free, held) = unmapped-holds m tid tids (ground (arith, h, e, miss)) in
        (free, rw (miss, held))
  ]
  | inr (ps, e) ↦
      let (free, held) = unmapped-holds m tid tids (ground (arith, h, e)) in
      (free, ground (arith, held))
]

-- What `replace` gives for a session that is there.
pub record IsReplaced (id : ℕ) (task_ids : List ℕ) (m : SessionTaskMap) (n : SessionTaskMap)
    (added removed : List ℕ) : Type 0 where
  pub inv : Inv n
  pub same_value : find_session id n ≡ find_session id m
  pub new_tasks : get_task_ids id n ≡ task_ids
  pub added_new :
      (tid : ℕ) → holds tid added ≡ true → (find tid m.tasks ≡ none) × (holds tid task_ids ≡ true)
  pub removed_free :
      (tid : ℕ)
      → holds tid removed ≡ true
      → (find tid n.tasks ≡ none) × (holds tid (get_task_ids id m) ≡ true)

restore_id : (x : SessionValueEntry) (id : ℕ) → x.session_id ≡ id → record x { session_id = id } ≡ x
restore_id x id e = λ i. record x { session_id = sym e i }

module _ (m : SessionTaskMap) (id : ℕ) (task_ids : List ℕ) (e : ValEntry) (v : Inv m)
    (present : find id m.sessions ≡ some e) where
  abbrev without : SessionTaskMap
  without = (remove id m).0

  abbrev replaced : SessionTaskMap
  replaced = (add id (m.entries e.val) task_ids without).0

  absent : find_session id without ≡ none
  unfolding find_session
  absent = ground (arith, (remove_lem id m e v present).1)

  known : find_session id m ≡ some (m.entries e.val)
  unfolding find_session
  known = ground (arith, present)

  listed : get_task_ids id m ≡ e.linked_tasks
  unfolding get_task_ids
  listed = ground (arith, present)

  replaced-IsReplaced :
      IsReplaced id task_ids m replaced
        (unmapped m.tasks task_ids)
        (unmapped replaced.tasks e.linked_tasks)
  replaced-IsReplaced =
      let inv = add-Inv id (m.entries e.val) task_ids without (remove-Inv id m v) in
      let (_, tasks, value) = add_new id (m.entries e.val) task_ids without absent in
      record {
        inv = inv;
        same_value =
            value ∙ ap some (restore_id (m.entries e.val) id (v.named id e present)) ∙ sym known;
        new_tasks = tasks;
        added_new = λ tid h. unmapped-holds m.tasks tid task_ids h;
        removed_free = λ tid h.
            let (free, held) = unmapped-holds replaced.tasks tid e.linked_tasks h in
            (free, rw listed held);
      }

-- On a session that is there `replace` keeps the invariant and the session's value, gives the session
-- the new tasks, reports as added only new tasks that no session had, and as removed only former
-- tasks that no session has any more.
pub replace-IsReplaced :
    (id : ℕ) (task_ids : List ℕ) (m : SessionTaskMap)
    → Inv m
    → find_session id m ≢ none
    → (n : SessionTaskMap) × (added : List ℕ) × (removed : List ℕ) × (replace id task_ids m
        ≡ some (n, added, removed))
      × IsReplaced id task_ids m n added removed
unfolding replace find_session
replace-IsReplaced id task_ids m v h = elim (Option-cases (find id m.sessions)) [
  | inl e ↦ absurd (h (ground (arith, e)))
  | inr (f, e) ↦ (
    replaced m id task_ids f v e,
    unmapped m.tasks task_ids,
    unmapped (replaced m id task_ids f v e).tasks f.linked_tasks,
    rw (e, replace),
    replaced-IsReplaced m id task_ids f v e,
  )
]

-- The map after a call of `replace`, which changes nothing where it fails.
unfoldable pub after_replace : ℕ → List ℕ → SessionTaskMap → SessionTaskMap
after_replace id task_ids m = elim (replace id task_ids m) [ none ↦ m | some (n, _, _) ↦ n ]

pub after_replace-Inv :
    (id : ℕ) (task_ids : List ℕ) (m : SessionTaskMap)
    → Inv m
    → Inv (after_replace id task_ids m) × (IsExact m → IsExact (after_replace id task_ids m))
unfolding after_replace replace
after_replace-Inv id task_ids m v = elim (Option-cases (find id m.sessions)) [
  | inl e ↦ rw (e, after_replace, replace) (v, λ x. x)
  | inr (f, e) ↦
      rw (e, after_replace, replace)
        (
          add-Inv id (m.entries f.val) task_ids (remove id m).0 (remove-Inv id m v),
          λ x.
              add-IsExact id (m.entries f.val) task_ids (remove id m).0 (remove-Inv id m v)
                (remove-IsExact id m v x),
        )
]
