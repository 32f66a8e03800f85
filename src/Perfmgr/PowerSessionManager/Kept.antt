-- ===== src/Perfmgr/PowerSessionManager/Kept.antt =====
-- power-libperfmgr/aidl/PowerSessionManager.cpp: the methods that let every session keep its votes.
use mathlib.Core.Path.{subst}
use hardware_voltage_interfa.Base.{
  ℕ, suc, ◌≡◌, ◌≤◌, ◌⊎◌, inl, inr, refl, sym, ap, ◌∙◌, Bool, Option, none, some, List, [], ◌∷◌,
  ◌==◌, arith, Option-cases, Bool-cases, ==_iff,
}
use hardware_voltage_interfa.Base.Int.{ℤ}
use hardware_voltage_interfa.Base.Dict.{
  find, assign, erase, Distinct, find-assign, find-erase_ne, find-erase_self, assign-Distinct,
  erase-Distinct,
}
use hardware_voltage_interfa.Perfmgr.Votes.{Votes}
use hardware_voltage_interfa.Perfmgr.SessionTaskMap.{
  SessionTaskMap, ValEntry, SessionValueEntry, remove_dead_task_session_map, remove,
}
use hardware_voltage_interfa.Perfmgr.PowerSessionManager.{
  Settings, apply_loop, apply_to, apply_uclamp, change_entry,
}
use hardware_voltage_interfa.Perfmgr.PowerSessionManager.Active.{LastsTo, IsActive, IsSound}

-- The sessions of `n` are sessions of `m`, with the same votes.
pub record KeepsVotes (m n : SessionTaskMap) : Type 0 where
  pub same_votes : n.votes ≡ m.votes
  pub no_less : m.next ≤ n.next
  pub origin :
      (id : ℕ) (e : ValEntry)
      → find id n.sessions ≡ some e
      → (f : ValEntry) × (find id m.sessions ≡ some f)
        × ((n.entries e.val).votes ≡ (m.entries f.val).votes)
        × ((e.val ≡ f.val) ⊎ (suc e.val ≤ n.next))
  pub still_distinct : Distinct n.sessions

pub KeepsVotes-refl : (m : SessionTaskMap) → Distinct m.sessions → KeepsVotes m m
KeepsVotes-refl m d = record {
  same_votes = refl;
  no_less = omega arith;
  origin = λ id e h. (e, h, refl, inl refl);
  still_distinct = d;
}

pub KeepsVotes-trans : (m n o : SessionTaskMap) → KeepsVotes m n → KeepsVotes n o → KeepsVotes m o
KeepsVotes-trans m n o a b = record {
  same_votes = b.same_votes ∙ a.same_votes;
  no_less = omega (arith, a.no_less, b.no_less);
  origin = λ id e h.
      let (f, found, same, at) = b.origin id e h in
      let (g, there, as_well, from) = a.origin id f found in
      (g, there, same ∙ as_well, ground (arith, b.no_less));
  still_distinct = b.still_distinct;
}

pub KeepsVotes-IsActive :
    (m n : SessionTaskMap) (id k : ℕ) (t : ℤ)
    → KeepsVotes m n
    → IsActive id k t n
    → IsActive id k t m
unfolding IsActive
KeepsVotes-IsActive m n id k t kept (e, found, lasts) =
    let (f, there, same, at) = kept.origin id e found in
    (
      f,
      there,
      subst (LastsTo k t)
          (ap (λ (g : ℕ → Votes). g (n.entries e.val).votes) kept.same_votes ∙ ap m.votes same)
          lasts,
    )

pub KeepsVotes-IsSound : (m n : SessionTaskMap) → KeepsVotes m n → IsSound m → IsSound n
KeepsVotes-IsSound m n kept sound = record {
  apart = λ i j e f fi fj same.
      let (g, there, one, at) = kept.origin i e fi in
      let (h, there_too, other, at_too) = kept.origin j f fj in
      sound.apart i j g h there there_too (sym one ∙ same ∙ other);
  below = λ i e fi.
      let (g, there, one, at) = kept.origin i e fi in
      let old = sound.below i g there in ground (arith, kept.no_less);
  distinct = kept.still_distinct;
}

unfoldable pub SameVotes : SessionTaskMap → SessionTaskMap → Type 0
SameVotes m n =
    (n.sessions ≡ m.sessions) × (n.entries ≡ m.entries) × (n.votes ≡ m.votes) × (n.next ≡ m.next)

remove_dead-SameVotes :
    (id tid : ℕ) (m : SessionTaskMap) → SameVotes m (remove_dead_task_session_map id tid m).0
unfolding SameVotes remove_dead_task_session_map
remove_dead-SameVotes id tid m = ground arith

pub apply_loop-SameVotes :
    (c : Settings) (dead : ℕ → Bool) (id : ℕ) (t : ℤ) (tids : List ℕ) (m : SessionTaskMap)
    → SameVotes m (apply_loop c dead id t tids m).0
unfolding SameVotes apply_loop
apply_loop-SameVotes c dead id t [] m = (refl, refl, refl, refl)
apply_loop-SameVotes c dead id t (tid ∷ tids) m =
    let gone = remove_dead-SameVotes id tid m in
    elim (Bool-cases (dead tid)) [
      | inl e ↦
          ground
            (arith, apply_loop-SameVotes c dead id t tids (remove_dead_task_session_map id tid m).0)
      | inr e ↦ ground (arith, apply_loop-SameVotes c dead id t tids m)
    ]

-- Other tasks for a session that is there.
relinked :
    (m n : SessionTaskMap) (id : ℕ) (e : ValEntry) (kept : List ℕ)
    → SameVotes m n
    → find id m.sessions ≡ some e
    → Distinct m.sessions
    → KeepsVotes m
        (record n { sessions = assign id (record { val = e.val; linked_tasks = kept }) n.sessions })
unfolding SameVotes
relinked m n id e kept (sessions, entries, votes, next) found d = record {
  same_votes = votes;
  no_less = ground arith;
  origin = λ j f h.
      let (g, there, same) = here j f h in
      (
        g,
        there,
        ap (λ (s : ℕ → SessionValueEntry). (s f.val).votes) entries
            ∙ ap (λ p. (m.entries p).votes) same,
        inl same,
      );
  still_distinct =
      assign-Distinct id (record { val = e.val; linked_tasks = kept }) n.sessions
        (subst Distinct (sym sessions) d);
}
  where
    here :
        (j : ℕ) (f : ValEntry)
        → find j (assign id (record { val = e.val; linked_tasks = kept }) n.sessions) ≡ some f
        → (g : ValEntry) × (find j m.sessions ≡ some g) × (f.val ≡ g.val)
    here j f h =
        let at = find-assign id j (record { val = e.val; linked_tasks = kept }) n.sessions in
        elim (Bool-cases (id == j)) [
          | inl same ↦ (e, ground (arith, ==_iff id j), ground arith)
          | inr other ↦ (f, ground arith, refl)
        ]

pub apply_uclamp-KeepsVotes :
    (c : Settings) (dead : ℕ → Bool) (id : ℕ) (t : ℤ) (m : SessionTaskMap)
    → Distinct m.sessions
    → KeepsVotes m (apply_uclamp c dead id t m).0
unfolding apply_uclamp apply_to
apply_uclamp-KeepsVotes c dead id t m d = applied (find id m.sessions) refl
  where
    applied :
        (o : Option ValEntry) → find id m.sessions ≡ o → KeepsVotes m (apply_to c dead id t m o).0
    applied none h = KeepsVotes-refl m d
    applied (some e) h = elim (Bool-cases c.uclamp_min_on) [
      | inl on ↦ rw on (
          relinked m (apply_loop c dead id t e.linked_tasks m).0 id e
            (apply_loop c dead id t e.linked_tasks m).1
            (apply_loop-SameVotes c dead id t e.linked_tasks m) h d)
      | inr off ↦ rw off (KeepsVotes-refl m d)
    ]

pub change_entry-KeepsVotes :
    (j : ℕ) (f : SessionValueEntry → SessionValueEntry) (m : SessionTaskMap)
    → ((v : SessionValueEntry) → (f v).votes ≡ v.votes)
    → Distinct m.sessions
    → KeepsVotes m (change_entry j f m)
unfolding change_entry
change_entry-KeepsVotes j f m keeps d = elim (Option-cases (find j m.sessions)) [
  | inl gone ↦ rw (gone, change_entry) (KeepsVotes-refl m d)
  | inr (e, there) ↦
      rw (there, change_entry)
        (record {
          same_votes = refl;
          no_less = omega arith;
          origin = λ id g h.
              (g, h, ground (arith, keeps (m.entries e.val), ==_iff e.val g.val), inl refl);
          still_distinct = d;
        })
]

pub remove-KeepsVotes :
    (id : ℕ) (m : SessionTaskMap) → Distinct m.sessions → KeepsVotes m (remove id m).0
unfolding remove
remove-KeepsVotes id m d = elim (Option-cases (find id m.sessions)) [
  | inl gone ↦ rw (gone, remove) (KeepsVotes-refl m d)
  | inr (e, there) ↦
      rw (there, remove)
        (record {
          same_votes = refl;
          no_less = omega arith;
          origin = λ j f h. (f, before j f h, refl, inl refl);
          still_distinct = erase-Distinct id m.sessions d;
        })
]
  where
    before :
        (j : ℕ) (f : ValEntry) → find j (erase id m.sessions) ≡ some f → find j m.sessions ≡ some f
    before j f h = elim (Bool-cases (id == j)) [
      | inl same ↦
          let eq = (==_iff id j).0 same in
          let none_there = find-erase_self id m.sessions d in
          absurd (clash (sym none_there ∙ ap (λ i. find i (erase id m.sessions)) eq ∙ h))
      | inr other ↦
          sym
            (find-erase_ne id j m.sessions (λ (eq : id ≡ j). absurd (ground (arith, ==_iff id j))))
          ∙ h
    ]
      where
        clash : ¬ (none ≡ some f)
        clash eq = ground arith
