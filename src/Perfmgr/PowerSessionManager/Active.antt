-- ===== src/Perfmgr/PowerSessionManager/Active.antt =====
-- Which votes of which sessions are active, as the methods of the manager change them.
use hardware_voltage_interfa.Base.{
  ℕ, ◌≡◌, ◌≢◌, ◌⊎◌, ◌≤◌, suc, inl, inr, sym, ap, true, false, Option, none, some, List, [], ◌∷◌,
  ◌==◌, arith, Option-cases, Bool-cases, ==_iff,
}
use hardware_voltage_interfa.Base.Int.{ℤ, ◌+ℤ◌}
use hardware_voltage_interfa.Base.Dict.{find, Distinct, find-assign, find-update}
use hardware_voltage_interfa.Perfmgr.Votes.{
  Votes, CpuVote, GpuVote, add_cpu, add_gpu, set_use_vote, update_duration, timing_of,
  vote_is_active, vote_timeout,
}
use hardware_voltage_interfa.Perfmgr.SessionTaskMap.{
  SessionTaskMap, ValEntry, change_votes, votes_of,
}
use hardware_voltage_interfa.Perfmgr.PowerSessionManager.{switch_off}

-- The vote is active, and ends at `t`.
unfoldable pub LastsTo : ℕ → ℤ → Votes → Type 0
LastsTo k t v = (vote_is_active k v ≡ true) × (vote_timeout k v ≡ t)

-- The session is there, and the vote is active and ends at `t`.
unfoldable pub IsActive : ℕ → ℕ → ℤ → SessionTaskMap → Type 0
IsActive id k t m = (e : ValEntry) × (find id m.sessions ≡ some e) × LastsTo k t (votes_of m e)

-- Sessions do not share votes, and the addresses in use lie below the next.
pub record IsSound (m : SessionTaskMap) : Type 0 where
  pub apart :
      (i j : ℕ) (e f : ValEntry)
      → find i m.sessions ≡ some e
      → find j m.sessions ≡ some f
      → (m.entries e.val).votes ≡ (m.entries f.val).votes
      → i ≡ j
  pub below :
      (i : ℕ) (e : ValEntry)
      → find i m.sessions ≡ some e
      → (suc e.val ≤ m.next) × (suc (m.entries e.val).votes ≤ m.next)
  pub distinct : Distinct m.sessions

pub add_cpu-LastsTo :
    (vote k : ℕ) (t : ℤ) (c : CpuVote) (v : Votes)
    → LastsTo k t (add_cpu vote c v)
    → LastsTo k t v ⊎ ((k ≡ vote) × (t ≡ c.timing.start_time +ℤ c.timing.duration_ns))
unfolding LastsTo vote_is_active vote_timeout timing_of add_cpu
add_cpu-LastsTo vote k t c v h = ground (arith, find-assign vote k c v.cpu_votes, ==_iff vote k)

pub add_gpu-LastsTo :
    (vote k : ℕ) (t : ℤ) (c : GpuVote) (v : Votes)
    → LastsTo k t (add_gpu vote c v)
    → LastsTo k t v ⊎ ((k ≡ vote) × (t ≡ c.timing.start_time +ℤ c.timing.duration_ns))
unfolding LastsTo vote_is_active vote_timeout timing_of add_gpu
add_gpu-LastsTo vote k t c v h = ground (arith, find-assign vote k c v.gpu_votes, ==_iff vote k)

-- What another duration leaves as it was.
pub update_duration-active :
    (vote k : ℕ) (d : ℤ) (v : Votes)
    → vote_is_active k (update_duration vote d v) ≡ vote_is_active k v
unfolding vote_is_active timing_of update_duration
update_duration-active vote k d v = grind (arith, find-update)

pub update_duration-timeout :
    (vote k : ℕ) (d : ℤ) (v : Votes)
    → k ≢ vote
    → vote_timeout k (update_duration vote d v) ≡ vote_timeout k v
unfolding vote_timeout timing_of update_duration
update_duration-timeout vote k d v ne = grind (arith, find-update)

pub off-LastsTo :
    (vote k : ℕ) (t : ℤ) (v : Votes)
    → LastsTo k t (set_use_vote vote false v).0
    → LastsTo k t v × (k ≢ vote)
unfolding LastsTo vote_is_active vote_timeout timing_of set_use_vote
off-LastsTo vote k t v h = grind (arith, find-update)

pub switch_off-LastsTo :
    (xs : List ℕ) (k : ℕ) (t : ℤ) (v : Votes) → LastsTo k t (switch_off xs v) → LastsTo k t v
unfolding switch_off
switch_off-LastsTo [] k t v h = h
switch_off-LastsTo (x ∷ xs) k t v h =
    (off-LastsTo x k t v (switch_off-LastsTo xs k t (set_use_vote x false v).0 h)).0

-- An active vote after a change of the votes of a session: it is one of the votes changed, or it was
-- there before.
pub data ChangedAt (j : ℕ) (f : Votes → Votes) (m : SessionTaskMap) (id k : ℕ) (t : ℤ)
    : Type 0 where
  at :
      id ≡ j
      → (e : ValEntry) → find j m.sessions ≡ some e
      → LastsTo k t (f (votes_of m e))
      → ChangedAt j f m id k t
  elsewhere : id ≢ j → IsActive id k t m → ChangedAt j f m id k t

pub change_votes-active :
    (j : ℕ) (f : Votes → Votes) (m : SessionTaskMap) (id k : ℕ) (t : ℤ)
    → IsSound m
    → IsActive id k t (change_votes j f m)
    → (o : Option ValEntry) → find j m.sessions ≡ o
    → ChangedAt j f m id k t
unfolding IsActive LastsTo change_votes
change_votes-active j f m id k t sound (e, found, act) none h =
    elsewhere (ground arith) (e, ground arith, ground arith)
change_votes-active j f m id k t sound (e, found, act) (some e') h =
    let v = (m.entries e'.val).votes in
    let there : find id m.sessions ≡ some e = ground arith in
    elim (Bool-cases (v == (m.entries e.val).votes)) [
      | inl same ↦
          let eq = (==_iff v (m.entries e.val).votes).0 same in
          let one = sound.apart id j e e' there h (sym eq) in at one e' h (ground arith)
      | inr other ↦
          elsewhere (λ (eq : id ≡ j). absurd (shut eq there h other)) (e, there, ground arith)
    ]
  where
    shut :
        {e e' : ValEntry}
        → id ≡ j
        → find id m.sessions ≡ some e
        → find j m.sessions ≡ some e'
        → ((m.entries e'.val).votes == (m.entries e.val).votes) ≡ false
        → ⊥
    shut {e} {e'} eq there h other =
        let one : e ≡ e' = ground arith in
        let same : (m.entries e'.val).votes ≡ (m.entries e.val).votes =
          ap (λ (g : ValEntry). (m.entries g.val).votes) (sym one) in
        ground arith

pub change_votes-IsSound :
    (j : ℕ) (f : Votes → Votes) (m : SessionTaskMap) → IsSound m → IsSound (change_votes j f m)
unfolding change_votes
change_votes-IsSound j f m sound = elim (Option-cases (find j m.sessions)) [
  | inl gone ↦ rw (gone, change_votes) sound
  | inr (e, there) ↦
      rw (there, change_votes)
        (record { apart = sound.apart; below = sound.below; distinct = sound.distinct })
]
