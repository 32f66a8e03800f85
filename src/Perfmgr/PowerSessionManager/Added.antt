-- ===== src/Perfmgr/PowerSessionManager/Added.antt =====
-- power-libperfmgr/aidl/PowerSessionManager.cpp: a session that addPowerSession enters has votes of its
-- own, none of them active.
use hardware_voltage_interfa.Base.{
  ℕ, ◌≡◌, inl, inr, refl, sym, ap, ◌∙◌, false, some, [], arith, Option-cases,
}
use hardware_voltage_interfa.Base.Int.{ℤ}
use hardware_voltage_interfa.Base.Dict.{find, assign-Distinct, find-assign}
use hardware_voltage_interfa.Perfmgr.Votes.{
  VoteRange, CpuVote, add_cpu, no_votes, default_range, vote_id, cpu_vote_default, vote_is_active,
  timing_of,
}
use hardware_voltage_interfa.Perfmgr.SessionTaskMap.{SessionTaskMap, ValEntry, add}
use hardware_voltage_interfa.Perfmgr.PowerSessionManager.Active.{LastsTo, IsActive, IsSound}
use hardware_voltage_interfa.Perfmgr.PowerSessionManager.Threads.{after_assign}
use hardware_voltage_interfa.Perfmgr.PowerSessionManager.Sessions.{Profile, Now}
use hardware_voltage_interfa.Perfmgr.PowerSessionManager.Lifetime.{Descriptor, add_entry}

first_idle :
    (k : ℕ) (v : VoteRange)
    → v.active ≡ false
    → vote_is_active k (
        add_cpu
          (vote_id cpu_vote_default)
          (record { timing = v; uclamp_range = default_range })
          no_votes)
      ≡ false
unfolding vote_is_active timing_of add_cpu find
first_idle k v h = ground (
  arith,
  find-assign {V = CpuVote} (vote_id cpu_vote_default) k
      (record { timing = v; uclamp_range = default_range }) [],
)

module _ (c : Profile) (now : Now) (d : Descriptor) (m : SessionTaskMap) (sound : IsSound m) where
  abbrev entered : ValEntry
  entered = record { val = m.next; linked_tasks = [] }

  pub add_entry-IsActive :
      (id k : ℕ) (t : ℤ) → IsActive id k t (add_entry c now d m) → IsActive id k t m
  unfolding IsActive LastsTo add_entry add
  add_entry-IsActive id k t (e, found, lasts) = elim (Option-cases (find d.session_id m.sessions)) [
    | inr (f, there) ↦
        let old : find id m.sessions ≡ some e = ground arith in
        let low = sound.below id e old in (e, old, (ground (arith, low), ground (arith, low)))
    | inl gone ↦ elim (after_assign d.session_id id entered e m.sessions (ground arith)) [
      | inr (other, old) ↦
          let low = sound.below id e old in (e, old, (ground (arith, low), ground (arith, low)))
      | inl (same, new) ↦
          let idle =
            first_idle k
              (record { active = false; start_time = now.steady; duration_ns = d.target_ns })
              refl in
          absurd (ground (arith, ap (λ (g : ValEntry). g.val) new))
    ]
  ]

  pub add_entry-IsSound : IsSound (add_entry c now d m)
  unfolding add_entry add
  add_entry-IsSound = elim (Option-cases (find d.session_id m.sessions)) [
    | inr (f, there) ↦
        rw (there, add_entry)
          (record { apart = sound.apart; below = sound.below; distinct = sound.distinct })
    | inl gone ↦
        rw (gone, add_entry)
          (record {
            apart = λ i j e f fi fj same.
                elim (after_assign d.session_id i entered e m.sessions fi) [
                  | inl (one, new) ↦ elim (after_assign d.session_id j entered f m.sessions fj) [
                    | inl (two, newer) ↦ sym one ∙ two
                    | inr (other, old) ↦
                        absurd
                          (ground (arith, ap (λ (g : ValEntry). g.val) new, sound.below j f old))
                  ]
                  | inr (apart, kept) ↦ elim (after_assign d.session_id j entered f m.sessions fj) [
                    | inl (two, newer) ↦
                        absurd
                          (ground (arith, ap (λ (g : ValEntry). g.val) newer, sound.below i e kept))
                    | inr (other, old) ↦
                        sound.apart i j e f kept old
                          (ground (arith, sound.below i e kept, sound.below j f old))
                  ]
                ];
            below = λ i e fi. elim (after_assign d.session_id i entered e m.sessions fi) [
              | inl (same, new) ↦ ground (arith, ap (λ (g : ValEntry). g.val) new)
              | inr (other, old) ↦ ground (arith, sound.below i e old)
            ];
            distinct = assign-Distinct d.session_id entered m.sessions sound.distinct;
          })
  ]
