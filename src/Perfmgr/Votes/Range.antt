-- ===== src/Perfmgr/Votes/Range.antt =====
-- `getUclampRange` and `getGpuCapacityRequest`: what the votes in force at a time ask for.
use mathlib.Core.List.{Perm, Permᴰ}
use mathlib.Core.Logic.{∥∥₁_elim}
use mathlib.Core.Path.{ap₂}
use hardware_voltage_interfa.Base.{
  ℕ, ◌≡◌, refl, ap, ◌∙◌, ◌⊎◌, true, false, Option, none, [], ◌∷◌, arith, Bool-cases, inl, inr,
}
use hardware_voltage_interfa.Base.Int.{ℤ, ◌≤ℤ◌, max_ℤ, min_ℤ}
use hardware_voltage_interfa.Base.Dict.{
  Dict, erase, update, Distinct, find-update, find-erase_ne, find-erase_self,
}
use hardware_voltage_interfa.Perfmgr.Votes.{
  Votes, UclampRange, CpuVote, GpuVote, AdpfVoteType, vote_id, is_time_in_range, is_gpu_vote,
  confine, confine_all, get_uclamp_range, get_gpu_capacity_request, add_capacity, remove,
  set_use_vote, set_active, change_cpu, change_gpu,
}

-- `b` bounds the minima, and `c` the maxima, of the votes in force at `t`.
abbrev pub Within : ℤ → ℤ → Dict CpuVote → ℤ → Type 0
Within b c [] t = Unit
Within b c ((_, v) ∷ m) t =
    (is_time_in_range v.timing t ≡ true
      → (v.uclamp_range.uclamp_min ≤ℤ b) × (c ≤ℤ v.uclamp_range.uclamp_max))
    × Within b c m t

-- Some vote in force at `t` has the minimum `b`; some has the maximum `c`.
abbrev pub HasMin : ℤ → Dict CpuVote → ℤ → Type 0
HasMin b [] t = ⊥
HasMin b ((_, v) ∷ m) t =
    ((is_time_in_range v.timing t ≡ true) × (v.uclamp_range.uclamp_min ≡ b)) ⊎ HasMin b m t

abbrev pub HasMax : ℤ → Dict CpuVote → ℤ → Type 0
HasMax c [] t = ⊥
HasMax c ((_, v) ∷ m) t =
    ((is_time_in_range v.timing t ≡ true) × (v.uclamp_range.uclamp_max ≡ c)) ⊎ HasMax c m t

-- The largest minimum and the smallest maximum among a range and the votes in force.
pub record IsTightest (r : UclampRange) (m : Dict CpuVote) (t : ℤ) (q : UclampRange) : Type 0 where
  pub min_grows : r.uclamp_min ≤ℤ q.uclamp_min
  pub max_shrinks : q.uclamp_max ≤ℤ r.uclamp_max
  pub bounds : Within q.uclamp_min q.uclamp_max m t
  pub min_attained : (q.uclamp_min ≡ r.uclamp_min) ⊎ HasMin q.uclamp_min m t
  pub max_attained : (q.uclamp_max ≡ r.uclamp_max) ⊎ HasMax q.uclamp_max m t

record IsConfined (r : UclampRange) (v : CpuVote) (t : ℤ) (q : UclampRange) : Type 0 where
  min_grows : r.uclamp_min ≤ℤ q.uclamp_min
  max_shrinks : q.uclamp_max ≤ℤ r.uclamp_max
  bounds :
      is_time_in_range v.timing t ≡ true
      → (v.uclamp_range.uclamp_min ≤ℤ q.uclamp_min) × (q.uclamp_max ≤ℤ v.uclamp_range.uclamp_max)
  min_attained :
      (q.uclamp_min ≡ r.uclamp_min)
      ⊎ ((is_time_in_range v.timing t ≡ true) × (v.uclamp_range.uclamp_min ≡ q.uclamp_min))
  max_attained :
      (q.uclamp_max ≡ r.uclamp_max)
      ⊎ ((is_time_in_range v.timing t ≡ true) × (v.uclamp_range.uclamp_max ≡ q.uclamp_max))

confine-IsConfined : (r : UclampRange) (v : CpuVote) (t : ℤ) → IsConfined r v t (confine r v t)
unfolding confine max_ℤ min_ℤ
confine-IsConfined r v t = ground arith

confine_all-IsTightest :
    (r : UclampRange) (m : Dict CpuVote) (t : ℤ) → IsTightest r m t (confine_all r m t)
unfolding confine_all
confine_all-IsTightest r [] t = ground arith
confine_all-IsTightest r ((j, v) ∷ m) t =
    ground (arith, confine-IsConfined r v t, confine_all-IsTightest (confine r v t) m t)

-- The result has the largest minimum and the smallest maximum among the range given and the CPU
-- votes in force at `t`: both bounds hold, and each is attained.
pub get_uclamp_range-IsTightest :
    (s : Votes) (r : UclampRange) (t : ℤ) → IsTightest r s.cpu_votes t (get_uclamp_range s r t)
unfolding get_uclamp_range
get_uclamp_range-IsTightest s r t = confine_all-IsTightest r s.cpu_votes t

UclampRange-set : IsSet UclampRange
UclampRange-set = hlevel

max_ℤ_right_comm : (a b c : ℤ) → max_ℤ (max_ℤ a b) c ≡ max_ℤ (max_ℤ a c) b
unfolding max_ℤ
max_ℤ_right_comm a b c = ground arith

min_ℤ_right_comm : (a b c : ℤ) → min_ℤ (min_ℤ a b) c ≡ min_ℤ (min_ℤ a c) b
unfolding min_ℤ
min_ℤ_right_comm a b c = ground arith

confine_comm :
    (r : UclampRange) (v w : CpuVote) (t : ℤ)
    → confine (confine r v t) w t ≡ confine (confine r w t) v t
unfolding confine
confine_comm r v w t = ground (
  arith,
  max_ℤ_right_comm r.uclamp_min v.uclamp_range.uclamp_min w.uclamp_range.uclamp_min,
  min_ℤ_right_comm r.uclamp_max v.uclamp_range.uclamp_max w.uclamp_range.uclamp_max,
)

confine_all_permᴰ :
    {m n : Dict CpuVote}
    → Permᴰ m n
    → (r : UclampRange) (t : ℤ) → confine_all r m t ≡ confine_all r n t
unfolding confine_all
confine_all_permᴰ Permᴰ.nil r t = refl
confine_all_permᴰ (Permᴰ.cons {a = (j, v)} {b = (k, w)} {l₁ = m} {l₂ = n} e p) r t =
    confine_all_permᴰ p (confine r v t) t ∙ ap (λ x. confine_all (confine r x.1 t) n t) e
confine_all_permᴰ (Permᴰ.swap {a = (i, v)} {b = (j, w)} {l = m} e f) r t =
    ap (λ q. confine_all q m t) (confine_comm r v w t)
    ∙ ap₂ (λ x y. confine_all (confine (confine r y.1 t) x.1 t) m t) e f
confine_all_permᴰ (Permᴰ.trans p q) r t = confine_all_permᴰ p r t ∙ confine_all_permᴰ q r t

-- The order in which the map gives its votes does not matter to the range.
pub confine_all-perm :
    (r : UclampRange) (t : ℤ) {m n : Dict CpuVote}
    → Perm m n
    → confine_all r m t ≡ confine_all r n t
confine_all-perm r t p = ∥∥₁_elim p (UclampRange-set _ _) (λ d. confine_all_permᴰ d r t)

-- A vote that is switched off asks for nothing.
confine_inactive :
    (r : UclampRange) (v : CpuVote) (t : ℤ) → confine r (change_cpu (set_active false) v) t ≡ r
unfolding confine is_time_in_range
confine_inactive r v t = refl

confine_all-update_inactive :
    (k : ℕ) (r : UclampRange) (m : Dict CpuVote) (t : ℤ)
    → confine_all r (update k (change_cpu (set_active false)) m) t ≡ confine_all r (erase k m) t
unfolding confine_all update erase
confine_all-update_inactive k r [] t = refl
confine_all-update_inactive k r ((j, v) ∷ m) t =
    ground (arith, confine_inactive r v t, confine_all-update_inactive k (confine r v t) m t)

add_capacity_inactive :
    (k : ℕ) (m : Dict GpuVote) (t : ℤ) (hint : AdpfVoteType) (res : Option ℤ)
    → Distinct m
    → add_capacity (update k (change_gpu (set_active false)) m) t hint res
      ≡ add_capacity (erase k m) t hint res
unfolding add_capacity is_time_in_range
add_capacity_inactive k m t hint res d = ground (
  arith,
  find-update k (vote_id hint) (change_gpu (set_active false)) m,
  find-erase_self k m d,
  find-erase_ne k (vote_id hint) m,
)

-- Switching a vote off has the effect of removing it: on the range, on the GPU capacity asked for,
-- and on the answer whether there was such a vote.
pub set_use_vote-off :
    (id : ℕ) (s : Votes) (r : UclampRange) (t : ℤ)
    → Distinct s.gpu_votes
    → (get_uclamp_range (set_use_vote id false s).0 r t ≡ get_uclamp_range (remove id s).0 r t)
      × (get_gpu_capacity_request (set_use_vote id false s).0 t
          ≡ get_gpu_capacity_request (remove id s).0 t)
      × ((set_use_vote id false s).1 ≡ (remove id s).1)
unfolding get_uclamp_range get_gpu_capacity_request set_use_vote remove
set_use_vote-off id s r t d = elim (Bool-cases (is_gpu_vote id)) [
  | inl gpu ↦ rw gpu (
    refl,
    rw (add_capacity_inactive id s.gpu_votes t AdpfVoteType.gpu_capacity none d)
        (add_capacity_inactive id s.gpu_votes t AdpfVoteType.gpu_load_up _ d),
    refl,
  )
  | inr cpu ↦ rw cpu (confine_all-update_inactive id r s.cpu_votes t, refl, refl)
]
