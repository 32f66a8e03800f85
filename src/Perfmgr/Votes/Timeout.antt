-- ===== src/Perfmgr/Votes/Timeout.antt =====
-- `anyTimedOut` and `allTimedOut`, and what they say of the other queries.
use hardware_voltage_interfa.Base.{
  ℕ, ◌≡◌, ◌⊎◌, refl, true, false, Option, none, some, [], ◌∷◌, arith, length, Option-cases, inl,
  inr,
}
use hardware_voltage_interfa.Base.Int.{ℤ}
use hardware_voltage_interfa.Base.Dict.{Dict, find}
use hardware_voltage_interfa.Perfmgr.Votes.{
  Votes, VoteRange, UclampRange, CpuVote, GpuVote, AdpfVoteType, vote_id, is_time_in_range, confine,
  confine_all, get_uclamp_range, get_gpu_capacity_request, add_capacity, any_out, all_out,
  any_timed_out, all_timed_out, size,
}

-- No vote of the map is in force at `t`.
abbrev pub AllOut {ℓ} : {V : Type ℓ} → (V → VoteRange) → Dict V → ℤ → Type 0
AllOut timing [] t = Unit
AllOut timing ((_, v) ∷ m) t = (is_time_in_range (timing v) t ≡ false) × AllOut timing m t

all_out-AllOut {ℓ} :
    {V : Type ℓ} (timing : V → VoteRange) (m : Dict V) (t : ℤ)
    → all_out timing m t ≡ true
    → AllOut timing m t
unfolding all_out
all_out-AllOut timing [] t h = tt
all_out-AllOut timing ((_, v) ∷ m) t h = ground (arith, all_out-AllOut timing m t)

any_out-none {ℓ} :
    {V : Type ℓ} (timing : V → VoteRange) (m : Dict V) (t : ℤ)
    → AllOut timing m t
    → any_out timing m t ≡ false
    → length m ≡ 0
unfolding any_out
any_out-none timing [] t a h = refl
any_out-none timing ((_, v) ∷ m) t a h = ground arith

confine_all-AllOut :
    (r : UclampRange) (m : Dict CpuVote) (t : ℤ)
    → AllOut (λ v. v.timing) m t
    → confine_all r m t ≡ r
unfolding confine_all confine
confine_all-AllOut r [] t h = refl
confine_all-AllOut r ((_, v) ∷ m) t h = ground (arith, confine_all-AllOut r m t h.1)

find-AllOut :
    (k : ℕ) (m : Dict GpuVote) (t : ℤ) (v : GpuVote)
    → AllOut (λ v. v.timing) m t
    → find k m ≡ some v
    → is_time_in_range v.timing t ≡ false
unfolding find
find-AllOut k [] t v h e = ground arith
find-AllOut k ((j, w) ∷ m) t v h e = ground (arith, find-AllOut k m t v h.1)

add_capacity-AllOut :
    (m : Dict GpuVote) (t : ℤ) (hint : AdpfVoteType) (res : Option ℤ)
    → AllOut (λ v. v.timing) m t
    → add_capacity m t hint res ≡ res
unfolding add_capacity
add_capacity-AllOut m t hint res h = elim (Option-cases (find (vote_id hint) m)) [
  | inl e ↦ rw (e, add_capacity)
  | inr (v, e) ↦ rw (e, add_capacity) (rw (find-AllOut (vote_id hint) m t v h e))
]

all_timed_out-AllOut :
    (s : Votes) (t : ℤ)
    → all_timed_out s t ≡ true
    → AllOut (λ v. v.timing) s.gpu_votes t × AllOut (λ v. v.timing) s.cpu_votes t
unfolding all_timed_out
all_timed_out-AllOut s t h = ground (
  arith,
  all_out-AllOut (λ (v : GpuVote). v.timing) s.gpu_votes t,
  all_out-AllOut (λ (v : CpuVote). v.timing) s.cpu_votes t,
)

-- Where all votes have timed out, they leave every range as it is and ask for no GPU capacity; and
-- then some vote has timed out too, unless there is no vote at all.
pub all_timed_out_silent :
    (s : Votes) (r : UclampRange) (t : ℤ)
    → all_timed_out s t ≡ true
    → (get_uclamp_range s r t ≡ r)
      × (get_gpu_capacity_request s t ≡ none)
      × ((size s ≡ 0) ⊎ (any_timed_out s t ≡ true))
unfolding get_uclamp_range get_gpu_capacity_request any_timed_out size
all_timed_out_silent s r t h =
    let (gpu, cpu) = all_timed_out-AllOut s t h in
    (
      confine_all-AllOut r s.cpu_votes t cpu,
      rw (add_capacity-AllOut s.gpu_votes t AdpfVoteType.gpu_capacity none gpu)
          (add_capacity-AllOut s.gpu_votes t AdpfVoteType.gpu_load_up none gpu),
      ground (
        arith,
        any_out-none (λ (v : GpuVote). v.timing) s.gpu_votes t gpu,
        any_out-none (λ (v : CpuVote). v.timing) s.cpu_votes t cpu,
      ),
    )
