-- ===== src/Perfmgr/SessionTaskMap/Queries.antt =====
-- What the queries of the map answer.
use hardware_voltage_interfa.Base.{
  ℕ, ◌<◌, ◌≡◌, ◌≢◌, refl, sym, ap, ◌∙◌, none, some, List, [], ◌∷◌, map, arith, ◌==◌, Option-cases,
  Bool-cases, ==_iff, ==_ne, inl, inr,
}
use hardware_voltage_interfa.Base.Dict.{find}
use hardware_voltage_interfa.Perfmgr.SessionTaskMap.{
  SessionTaskMap, ValEntry, entries_of, get_session_ids, get_task_ids, sessions_loop,
  for_each_session_in_task,
}
use hardware_voltage_interfa.Perfmgr.SessionTaskMap.Links.{count}
use hardware_voltage_interfa.Perfmgr.SessionTaskMap.Invariant.{Inv, IsExact, IsLive}

-- Every address in the vector belongs to a session.
abbrev AllLive : SessionTaskMap → List ℕ → Type 0
AllLive m ps = (p : ℕ) → 0 < count p ps → IsLive m.sessions p

AllLive-tail : (m : SessionTaskMap) (p : ℕ) (ps : List ℕ) → AllLive m (p ∷ ps) → AllLive m ps
unfolding count
AllLive-tail m p ps a q h = a q (ground arith)

AllLive-head : (m : SessionTaskMap) (p : ℕ) (ps : List ℕ) → AllLive m (p ∷ ps) → IsLive m.sessions p
unfolding count
AllLive-head m p ps a = a p (ground arith)

module _ (m : SessionTaskMap) (v : Inv m) where
  same_session :
      (id p : ℕ) (e : ValEntry)
      → find id m.sessions ≡ some e
      → IsLive m.sessions p
      → ((m.entries p).session_id == id) ≡ (p == e.val)
  same_session id p e h (j, f, found, at) = elim (Bool-cases (p == e.val)) [
    | inl hit ↦
        let here : p ≡ e.val = (==_iff p e.val).0 hit in
        let one : j ≡ id = v.apart j id f e found h (at ∙ here) in
        rw hit ((==_iff _ id).1 (rw (← at) (v.named j f found) ∙ one))
    | inr miss ↦ rw miss (
        ==_ne _ id λ eq.
          let here : j ≡ id = sym (rw (← at) (v.named j f found)) ∙ eq in
          let it : f ≡ e = ground (arith, found, h, here) in
          ground (arith, at, ap (λ x. x.val) it, miss))
  ]

  count_ids :
      (id : ℕ) (e : ValEntry) (ps : List ℕ)
      → find id m.sessions ≡ some e
      → AllLive m ps
      → count id (map (λ p. (m.entries p).session_id) ps) ≡ count e.val ps
  unfolding count
  count_ids id e [] h a = refl
  count_ids id e (p ∷ ps) h a =
      rw
        (same_session id p e h (AllLive-head m p ps a), count_ids id e ps h (AllLive-tail m p ps a))

  count_ids_absent :
      (id : ℕ) (ps : List ℕ)
      → find id m.sessions ≡ none
      → AllLive m ps
      → count id (map (λ p. (m.entries p).session_id) ps) ≡ 0
  unfolding count
  count_ids_absent id [] h a = refl
  count_ids_absent id (p ∷ ps) h a =
      let (j, f, found, at) = AllLive-head m p ps a in
      let name : (m.entries p).session_id ≡ j =
        ap (λ q. (m.entries q).session_id) (sym at) ∙ v.named j f found in
      let other : j ≢ id = λ e. cc (found, h, e) in
      rw (name, ==_ne j id other) (omega (arith, count_ids_absent id ps h (AllLive-tail m p ps a)))

-- The two directions of the map agree: a session is among the ids of a task as often as the task is
-- in the session's list, for every session id and task id, also those that the map does not hold.
pub count-get_session_ids :
    (id task : ℕ) (m : SessionTaskMap)
    → Inv m
    → IsExact m
    → count id (get_session_ids task m) ≡ count task (get_task_ids id m)
unfolding get_session_ids get_task_ids count
count-get_session_ids id task m v x = elim (Option-cases (find id m.sessions)) [
  | inl e ↦
      rw (e, get_task_ids)
        (count_ids_absent m v id (entries_of (find task m.tasks)) e (λ p h. v.backed task p h))
  | inr (f, e) ↦
      rw (e, get_task_ids)
        (count_ids m v id f (entries_of (find task m.tasks)) e (λ p h. v.backed task p h)
          ∙ x id task f e)
]

sessions_loop-AllLive :
    (m : SessionTaskMap) (ps : List ℕ)
    → Inv m
    → AllLive m ps
    → sessions_loop m ps ≡ map (λ p. ((m.entries p).session_id, m.entries p)) ps
unfolding sessions_loop
sessions_loop-AllLive m [] v a = refl
sessions_loop-AllLive m (p ∷ ps) v a =
    let (j, f, found, at) = AllLive-head m p ps a in
    let name : (m.entries p).session_id ≡ j =
      ap (λ q. (m.entries q).session_id) (sym at) ∙ v.named j f found in
    let found' : find (m.entries p).session_id m.sessions ≡ some f = rw name found in
    ground (arith, found', at, sessions_loop-AllLive m ps v (AllLive-tail m p ps a))

-- The callback of `forEachSessionInTask` is called once for each entry of the task, with that entry
-- itself: no entry is skipped.
pub for_each_session_in_task_lem :
    (task : ℕ) (m : SessionTaskMap)
    → Inv m
    → for_each_session_in_task task m
      ≡ map (λ p. ((m.entries p).session_id, m.entries p)) (entries_of (find task m.tasks))
unfolding for_each_session_in_task
for_each_session_in_task_lem task m v =
    sessions_loop-AllLive m (entries_of (find task m.tasks)) v (λ p h. v.backed task p h)
