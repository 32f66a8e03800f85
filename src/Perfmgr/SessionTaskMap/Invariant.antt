-- ===== src/Perfmgr/SessionTaskMap/Invariant.antt =====
-- What holds of the map between two calls.
use hardware_voltage_interfa.Base.{
  ℕ, suc, ◌-◌, ◌≤◌, ◌<◌, ◌≡◌, ◌≢◌, ◌⊎◌, refl, sym, ap, ◌∙◌, none, some, List, arith, ◌==◌,
  if◌then◌else◌, Bool-cases, ==_iff, inl, inr,
}
use hardware_voltage_interfa.Base.Dict.{
  Dict, find, assign, erase, Distinct, find-assign, find-erase_ne, find-erase_self, assign-Distinct,
  erase-Distinct,
}
use hardware_voltage_interfa.Perfmgr.SessionTaskMap.{
  SessionTaskMap, SessionValueEntry, ValEntry, store, link_all, unlink_all,
}
use hardware_voltage_interfa.Perfmgr.SessionTaskMap.Links.{
  count, links, NoEmpty, links-link_all, links-unlink_all, link_all-Distinct, unlink_all-Distinct,
  link_all-NoEmpty, unlink_all-NoEmpty,
}

-- The address is that of the entry of some session.
abbrev pub IsLive : Dict ValEntry → ℕ → Type 0
IsLive s p = (id : ℕ) × (e : ValEntry) × (find id s ≡ some e) × (e.val ≡ p)

pub record Inv (m : SessionTaskMap) : Type 0 where
  pub sessions_distinct : Distinct m.sessions
  pub tasks_distinct : Distinct m.tasks
  pub no_empty : NoEmpty m.tasks
  pub fresh : (id : ℕ) (e : ValEntry) → find id m.sessions ≡ some e → e.val < m.next
  pub apart :
      (i j : ℕ) (e f : ValEntry)
      → find i m.sessions ≡ some e
      → find j m.sessions ≡ some f
      → e.val ≡ f.val
      → i ≡ j
  pub named :
      (id : ℕ) (e : ValEntry) → find id m.sessions ≡ some e → (m.entries e.val).session_id ≡ id
  pub backed : (t p : ℕ) → 0 < links m.tasks t p → IsLive m.sessions p
  pub linked :
      (id t : ℕ) (e : ValEntry)
      → find id m.sessions ≡ some e
      → links m.tasks t e.val ≤ count t e.linked_tasks

-- A task holds a session as often as the session lists the task.
abbrev pub IsExact : SessionTaskMap → Type 0
IsExact m =
    (id t : ℕ) (e : ValEntry)
    → find id m.sessions ≡ some e
    → links m.tasks t e.val ≡ count t e.linked_tasks

-- An entry that no session owns is in no task's vector.
pub links_dead :
    (m : SessionTaskMap) (t p : ℕ) → Inv m → ¬ IsLive m.sessions p → links m.tasks t p ≡ 0
links_dead m t p v dead = ground (arith, λ (h : 0 < links m.tasks t p). dead (v.backed t p h))

-- A session found after the key `id` was assigned is the new one, or was there before.
found_after_assign :
    (id j : ℕ) (v e : ValEntry) (s : Dict ValEntry)
    → find j (assign id v s) ≡ some e
    → ((id ≡ j) × (v ≡ e)) ⊎ ((id ≢ j) × (find j s ≡ some e))
found_after_assign id j v e s h = ground (arith, find-assign id j v s)

module _ (m : SessionTaskMap) (id : ℕ) (sv : SessionValueEntry) (tasks : List ℕ) (v : Inv m)
    (absent : find id m.sessions ≡ none) where
  abbrev entry : ValEntry
  entry = record { val = m.next; linked_tasks = tasks }

  abbrev added : SessionTaskMap
  added = record m {
    sessions = assign id entry m.sessions;
    tasks = link_all m.next m.tasks tasks;
    entries = store m.next (record sv { session_id = id }) m.entries;
    next = suc m.next;
  }

  next_dead : (t : ℕ) → links m.tasks t m.next ≡ 0
  next_dead t = links_dead m t m.next v λ (j, e, h, same). omega (arith, v.fresh j e h, same)

  IsLive-added : (p : ℕ) → IsLive m.sessions p → IsLive added.sessions p
  IsLive-added p (j, e, h, same) = (j, e, ground (arith, find-assign id j entry m.sessions), same)

  new-IsLive : IsLive added.sessions m.next
  new-IsLive = (id, entry, ground (arith, find-assign id id entry m.sessions), refl)

  backed-added : (t p : ℕ) → 0 < links added.tasks t p → IsLive added.sessions p
  backed-added t p h = elim (Bool-cases (m.next == p)) [
    | inl e ↦ let same : m.next ≡ p = (==_iff m.next p).0 e in rw (← same) new-IsLive
    | inr e ↦
        IsLive-added p (v.backed t p (ground (arith, links-link_all m.next tasks m.tasks t p)))
  ]

  linked-added :
      (j t : ℕ) (e : ValEntry)
      → find j added.sessions ≡ some e
      → ((id ≡ j) × (links added.tasks t e.val ≡ count t e.linked_tasks))
        ⊎ ((find j m.sessions ≡ some e) × (links added.tasks t e.val ≡ links m.tasks t e.val))
  linked-added j t e h = elim (found_after_assign id j entry e m.sessions h) [
    | inl (same, new) ↦ inl (
      same,
      rw (← new) (ground (arith, next_dead t, links-link_all m.next tasks m.tasks t m.next)),
    )
    | inr (other, old) ↦
        inr (old, ground (arith, v.fresh j e old, links-link_all m.next tasks m.tasks t e.val))
  ]

  fresh-added : (j : ℕ) (e : ValEntry) → find j added.sessions ≡ some e → e.val < suc m.next
  fresh-added j e h = elim (found_after_assign id j entry e m.sessions h) [
    | inl (same, new) ↦ omega (arith, ap (λ x. x.val) new)
    | inr (other, old) ↦ omega (arith, v.fresh j e old)
  ]

  named-added :
      (j : ℕ) (e : ValEntry) → find j added.sessions ≡ some e → (added.entries e.val).session_id ≡ j
  named-added j e h = elim (found_after_assign id j entry e m.sessions h) [
    | inl (same, new) ↦ rw (← new) (ground (arith, same))
    | inr (other, old) ↦ ground (arith, v.fresh j e old, v.named j e old)
  ]

  apart-added :
      (i j : ℕ) (e f : ValEntry)
      → find i added.sessions ≡ some e
      → find j added.sessions ≡ some f
      → e.val ≡ f.val
      → i ≡ j
  apart-added i j e f h k same = elim (found_after_assign id i entry e m.sessions h) [
    | inl (a, new) ↦ elim (found_after_assign id j entry f m.sessions k) [
      | inl (b, _) ↦ sym a ∙ b
      | inr (_, old) ↦ absurd (omega (arith, v.fresh j f old, ap (λ x. x.val) new, same))
    ]
    | inr (_, old) ↦ elim (found_after_assign id j entry f m.sessions k) [
      | inl (_, new) ↦ absurd (omega (arith, v.fresh i e old, ap (λ x. x.val) new, same))
      | inr (_, also) ↦ v.apart i j e f old also same
    ]
  ]

  pub added-Inv : Inv added
  added-Inv = record {
    sessions_distinct = assign-Distinct id entry m.sessions v.sessions_distinct;
    tasks_distinct = link_all-Distinct m.next tasks m.tasks v.tasks_distinct;
    no_empty = link_all-NoEmpty m.next tasks m.tasks v.no_empty;
    fresh = fresh-added;
    apart = apart-added;
    named = named-added;
    backed = backed-added;
    linked = λ j t e h. elim (linked-added j t e h) [
      | inl (_, exact) ↦ omega (arith, exact)
      | inr (old, same) ↦ omega (arith, same, v.linked j t e old)
    ];
  }

  pub added-IsExact : IsExact m → IsExact added
  added-IsExact x j t e h = elim (linked-added j t e h) [
    | inl (_, exact) ↦ exact
    | inr (old, same) ↦ same ∙ x j t e old
  ]

module _ (m : SessionTaskMap) (id : ℕ) (gone : ValEntry) (v : Inv m)
    (present : find id m.sessions ≡ some gone) where
  abbrev removed : SessionTaskMap
  removed = record m {
    sessions = erase id m.sessions;
    tasks = unlink_all gone.val m.tasks gone.linked_tasks;
  }

  abbrev drops : ℕ → ℕ → ℕ
  drops t p = if gone.val == p then count t gone.linked_tasks else 0

  links-removed : (t p : ℕ) → links removed.tasks t p ≡ links m.tasks t p - drops t p
  links-removed t p = links-unlink_all gone.val gone.linked_tasks m.tasks t p v.tasks_distinct

  -- No task holds the entry of the session that was removed.
  pub links-removed_self : (t : ℕ) → links removed.tasks t gone.val ≡ 0
  links-removed_self t = ground (arith, links-removed t gone.val, v.linked id t gone present)

  found_after_erase :
      (j : ℕ) (e : ValEntry)
      → find j removed.sessions ≡ some e
      → (id ≢ j) × (find j m.sessions ≡ some e)
  found_after_erase j e h = (
    λ same. cc (find-erase_self id m.sessions v.sessions_distinct, h, same),
    ground
        (arith, find-erase_self id m.sessions v.sessions_distinct, find-erase_ne id j m.sessions),
  )

  links-removed_other :
      (j t : ℕ) (e : ValEntry)
      → find j removed.sessions ≡ some e
      → links removed.tasks t e.val ≡ links m.tasks t e.val
  links-removed_other j t e h =
      let (other, old) = found_after_erase j e h in
      let apart : gone.val ≢ e.val = λ same. other (v.apart id j gone e present old same) in
      ground (arith, links-removed t e.val)

  backed-removed : (t p : ℕ) → 0 < links removed.tasks t p → IsLive removed.sessions p
  backed-removed t p h = still (v.backed t p (omega (arith, links-removed t p)))
    where
      still : IsLive m.sessions p → IsLive removed.sessions p
      still (j, e, old, same) = elim (Bool-cases (id == j)) [
        | inl hit ↦
            let here : id ≡ j = (==_iff id j).0 hit in
            let it : gone ≡ e = ground (arith, present, old, here) in
            absurd (
              omega (
                arith,
                links-removed_self t,
                ap (λ x. links removed.tasks t x) (ap (λ x. x.val) it ∙ same),
              ))
        | inr miss ↦ (j, e, ground (arith, find-erase_ne id j m.sessions), same)
      ]

  pub removed-Inv : Inv removed
  removed-Inv = record {
    sessions_distinct = erase-Distinct id m.sessions v.sessions_distinct;
    tasks_distinct = unlink_all-Distinct gone.val gone.linked_tasks m.tasks v.tasks_distinct;
    no_empty = unlink_all-NoEmpty gone.val gone.linked_tasks m.tasks v.tasks_distinct v.no_empty;
    fresh = λ j e h. v.fresh j e (found_after_erase j e h).1;
    apart = λ i j e f h k. v.apart i j e f (found_after_erase i e h).1 (found_after_erase j f k).1;
    named = λ j e h. v.named j e (found_after_erase j e h).1;
    backed = backed-removed;
    linked = λ j t e h.
        omega (arith, links-removed_other j t e h, v.linked j t e (found_after_erase j e h).1);
  }

  pub removed-IsExact : IsExact m → IsExact removed
  removed-IsExact x j t e h = links-removed_other j t e h ∙ x j t e (found_after_erase j e h).1
