-- ===== src/Perfmgr/SessionTaskMap/Operations.antt =====
-- `add`, `remove`, `replace` and `removeDeadTaskSessionMap` on maps that satisfy the invariant.
use hardware_voltage_interfa.Base.{
  ℕ, ◌≡◌, refl, true, none, some, List, [], arith, Option-cases, inl, inr,
}
use hardware_voltage_interfa.Base.Dict.{find, find-assign, find-erase_self}
use hardware_voltage_interfa.Perfmgr.Votes.{Votes}
use hardware_voltage_interfa.Perfmgr.SessionTaskMap.{
  SessionTaskMap, SessionValueEntry, ValEntry, add, remove, get_task_ids, find_session,
}
use hardware_voltage_interfa.Perfmgr.SessionTaskMap.Links.{count, links}
use hardware_voltage_interfa.Perfmgr.SessionTaskMap.Invariant.{
  Inv, IsExact, added-Inv, added-IsExact, removed-Inv, removed-IsExact, links-removed_self,
}

abbrev pub empty_map : (ℕ → SessionValueEntry) → (ℕ → Votes) → SessionTaskMap
empty_map entries votes = record {
  sessions = [];
  tasks = [];
  entries = entries;
  votes = votes;
  next = 0;
}

pub empty_map-Inv :
    (entries : ℕ → SessionValueEntry) (votes : ℕ → Votes)
    → Inv (empty_map entries votes) × IsExact (empty_map entries votes)
unfolding find count
empty_map-Inv entries votes = (
  record {
    sessions_distinct = tt;
    tasks_distinct = tt;
    no_empty = λ t e. cc;
    fresh = λ id e h. cc;
    apart = λ i j e f h k same. cc;
    named = λ id e h. cc;
    backed = λ t p h. absurd (omega arith);
    linked = λ id t e h. cc;
  },
  λ id t e h. cc,
)

pub add-Inv :
    (id : ℕ) (sv : SessionValueEntry) (tasks : List ℕ) (m : SessionTaskMap)
    → Inv m
    → Inv (add id sv tasks m).0
unfolding add
add-Inv id sv tasks m v = elim (Option-cases (find id m.sessions)) [
  | inl e ↦ rw (e, add) (added-Inv m id sv tasks v e)
  | inr (f, e) ↦ rw (e, add) v
]

pub add-IsExact :
    (id : ℕ) (sv : SessionValueEntry) (tasks : List ℕ) (m : SessionTaskMap)
    → Inv m
    → IsExact m
    → IsExact (add id sv tasks m).0
unfolding add
add-IsExact id sv tasks m v x = elim (Option-cases (find id m.sessions)) [
  | inl e ↦ rw (e, add) (added-IsExact m id sv tasks v e x)
  | inr (f, e) ↦ rw (e, add) x
]

-- After `add` of a new session, the session has exactly the tasks given and a copy of the value
-- given under its own id.
pub add_new :
    (id : ℕ) (sv : SessionValueEntry) (tasks : List ℕ) (m : SessionTaskMap)
    → find_session id m ≡ none
    → ((add id sv tasks m).1 ≡ true)
      × (get_task_ids id (add id sv tasks m).0 ≡ tasks)
      × (find_session id (add id sv tasks m).0 ≡ some (record sv { session_id = id }))
unfolding add get_task_ids find_session
add_new id sv tasks m h = elim (Option-cases (find id m.sessions)) [
  | inl e ↦
      ground
        (arith, e, find-assign id id (record { val = m.next; linked_tasks = tasks }) m.sessions)
  | inr (f, e) ↦ ground (arith, e, h)
]

pub remove-Inv : (id : ℕ) (m : SessionTaskMap) → Inv m → Inv (remove id m).0
unfolding remove
remove-Inv id m v = elim (Option-cases (find id m.sessions)) [
  | inl e ↦ rw (e, remove) v
  | inr (f, e) ↦ rw (e, remove) (removed-Inv m id f v e)
]

pub remove-IsExact : (id : ℕ) (m : SessionTaskMap) → Inv m → IsExact m → IsExact (remove id m).0
unfolding remove
remove-IsExact id m v x = elim (Option-cases (find id m.sessions)) [
  | inl e ↦ rw (e, remove) x
  | inr (f, e) ↦ rw (e, remove) (removed-IsExact m id f v e x)
]

-- `remove` succeeds on a session that is there. Then the session is gone, and no task holds
-- its entry any more.
pub remove_lem :
    (id : ℕ) (m : SessionTaskMap) (e : ValEntry)
    → Inv m
    → find id m.sessions ≡ some e
    → ((remove id m).1 ≡ true)
      × (find id (remove id m).0.sessions ≡ none)
      × ((t : ℕ) → links (remove id m).0.tasks t e.val ≡ 0)
unfolding remove
remove_lem id m e v h =
    rw (h, remove)
      (refl, find-erase_self id m.sessions v.sessions_distinct, links-removed_self m id e v h)
