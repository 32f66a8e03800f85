-- ===== src/Perfmgr/Votes.antt =====
-- power-libperfmgr/aidl/UClampVoter.h and UClampVoter.cpp: the votes of one session. Time points and
-- durations are nanoseconds; the C++ sums of times and capacities are taken not to overflow. A vote
-- id is only compared, so an `int` stands as the number of its 32 bits.
pub mod Laws
pub mod Range
pub mod Timeout
mod Tests
use hardware_voltage_interfa.Base.{
  ℕ, ◌+◌, Bool, true, false, not, ◌&&◌, ◌||◌, Option, none, some, [], ◌∷◌, ◌==◌, if◌then◌else◌,
  length,
}
use hardware_voltage_interfa.Base.Int.{ℤ, pos, ◌+ℤ◌, leb_ℤ, max_ℤ, min_ℤ}
use hardware_voltage_interfa.Base.Dict.{Dict, find, assign, erase, update}

pub record UclampRange : Type 0 where
  pub uclamp_min : ℤ
  pub uclamp_max : ℤ

-- kUclampMin and kUclampMax.
abbrev pub default_range : UclampRange
default_range = record { uclamp_min = pos 0; uclamp_max = pos 1024 }

pub record VoteRange : Type 0 where
  pub active : Bool
  pub start_time : ℤ
  pub duration_ns : ℤ

pub record CpuVote : Type 0 where
  pub timing : VoteRange
  pub uclamp_range : UclampRange

pub record GpuVote : Type 0 where
  pub timing : VoteRange
  pub capacity : ℤ

unfoldable pub is_time_in_range : VoteRange → ℤ → Bool
is_time_in_range v t = v.active && (leb_ℤ v.start_time t && leb_ℤ t (v.start_time +ℤ v.duration_ns))

abbrev pub set_active : Bool → VoteRange → VoteRange
set_active a v = record v { active = a }

abbrev pub set_duration : ℤ → VoteRange → VoteRange
set_duration d v = record v { duration_ns = d }

pub data AdpfVoteType : Type 0 where
  cpu_vote_default cpu_load_up cpu_load_reset cpu_load_resume : AdpfVoteType
  vote_power_efficiency : AdpfVoteType
  gpu_load_up gpu_load_down gpu_load_reset gpu_capacity : AdpfVoteType

-- `static_cast<int>` of an enumerator.
abbrev pub vote_id : AdpfVoteType → ℕ
vote_id cpu_vote_default = 0
vote_id cpu_load_up = 1
vote_id cpu_load_reset = 2
vote_id cpu_load_resume = 3
vote_id vote_power_efficiency = 4
vote_id gpu_load_up = 5
vote_id gpu_load_down = 6
vote_id gpu_load_reset = 7
vote_id gpu_capacity = 8

unfoldable pub is_gpu_vote : ℕ → Bool
is_gpu_vote id =
    id == vote_id gpu_capacity
    || (id == vote_id gpu_load_up || (id == vote_id gpu_load_down || id == vote_id gpu_load_reset))

pub record Votes : Type 0 where
  pub cpu_votes : Dict CpuVote
  pub gpu_votes : Dict GpuVote

abbrev pub no_votes : Votes
no_votes = record { cpu_votes = []; gpu_votes = [] }

unfoldable pub confine : UclampRange → CpuVote → ℤ → UclampRange
confine r v t = if not (is_time_in_range v.timing t) then r else record {
  uclamp_min = max_ℤ r.uclamp_min v.uclamp_range.uclamp_min;
  uclamp_max = min_ℤ r.uclamp_max v.uclamp_range.uclamp_max;
}

unfoldable pub add_cpu : ℕ → CpuVote → Votes → Votes
add_cpu id v s =
    if not (is_gpu_vote id) then record s { cpu_votes = assign id v s.cpu_votes } else s

unfoldable pub add_gpu : ℕ → GpuVote → Votes → Votes
add_gpu id v s = if is_gpu_vote id then record s { gpu_votes = assign id v s.gpu_votes } else s

-- One round of the loop of `getGpuCapacityRequest`, for one of its two hints.
unfoldable pub add_capacity : Dict GpuVote → ℤ → AdpfVoteType → Option ℤ → Option ℤ
add_capacity m t hint res = elim (find (vote_id hint) m) [
  | none ↦ res
  | some v ↦
      if is_time_in_range v.timing t
      then some (elim res [ none ↦ pos 0 | some c ↦ c ] +ℤ v.capacity)
      else res
]

unfoldable pub get_gpu_capacity_request : Votes → ℤ → Option ℤ
unfolding add_capacity
get_gpu_capacity_request s t =
    add_capacity s.gpu_votes t gpu_load_up (add_capacity s.gpu_votes t gpu_capacity none)

abbrev pub change_cpu : (VoteRange → VoteRange) → CpuVote → CpuVote
change_cpu f v = record v { timing = f v.timing }

abbrev pub change_gpu : (VoteRange → VoteRange) → GpuVote → GpuVote
change_gpu f v = record v { timing = f v.timing }

unfoldable pub update_duration : ℕ → ℤ → Votes → Votes
update_duration id d s =
    if is_gpu_vote id
    then record s { gpu_votes = update id (change_gpu (set_duration d)) s.gpu_votes }
    else record s { cpu_votes = update id (change_cpu (set_duration d)) s.cpu_votes }

-- The loop of `getUclampRange` over the CPU votes in iteration order.
unfoldable pub confine_all : UclampRange → Dict CpuVote → ℤ → UclampRange
confine_all r [] t = r
confine_all r ((_, v) ∷ m) t = confine_all (confine r v t) m t

unfoldable pub get_uclamp_range : Votes → UclampRange → ℤ → UclampRange
get_uclamp_range s r t = confine_all r s.cpu_votes t

-- The two loops of `anyTimedOut` and of `allTimedOut`, each over the timings of one map.
unfoldable pub any_out {ℓ} : {V : Type ℓ} → (V → VoteRange) → Dict V → ℤ → Bool
any_out timing [] t = false
any_out timing ((_, v) ∷ m) t = not (is_time_in_range (timing v) t) || any_out timing m t

unfoldable pub all_out {ℓ} : {V : Type ℓ} → (V → VoteRange) → Dict V → ℤ → Bool
all_out timing [] t = true
all_out timing ((_, v) ∷ m) t = if is_time_in_range (timing v) t then false else all_out timing m t

unfoldable pub any_timed_out : Votes → ℤ → Bool
unfolding any_out
any_timed_out s t = any_out (λ v. v.timing) s.gpu_votes t || any_out (λ v. v.timing) s.cpu_votes t

unfoldable pub all_timed_out : Votes → ℤ → Bool
unfolding all_out
all_timed_out s t = all_out (λ v. v.timing) s.gpu_votes t && all_out (λ v. v.timing) s.cpu_votes t

abbrev is_some {ℓ} : {A : Type ℓ} → Option A → Bool
is_some none = false
is_some (some _) = true

-- The new votes, and whether there was such a vote.
unfoldable pub remove : ℕ → Votes → Votes × Bool
remove id s =
    if is_gpu_vote id
    then (record s { gpu_votes = erase id s.gpu_votes }, is_some (find id s.gpu_votes))
    else (record s { cpu_votes = erase id s.cpu_votes }, is_some (find id s.cpu_votes))

unfoldable pub set_use_vote : ℕ → Bool → Votes → Votes × Bool
set_use_vote id a s =
    if is_gpu_vote id
    then (
      record s { gpu_votes = update id (change_gpu (set_active a)) s.gpu_votes },
      is_some (find id s.gpu_votes),
    )
    else (
      record s { cpu_votes = update id (change_cpu (set_active a)) s.cpu_votes },
      is_some (find id s.cpu_votes),
    )

unfoldable pub size : Votes → ℕ
size s = length s.cpu_votes + length s.gpu_votes

-- The timing of the vote with an id, in the map that the id belongs to.
unfoldable pub timing_of : ℕ → Votes → Option VoteRange
timing_of id s =
    if is_gpu_vote id
    then elim (find id s.gpu_votes) [ none ↦ none | some v ↦ some v.timing ]
    else elim (find id s.cpu_votes) [ none ↦ none | some v ↦ some v.timing ]

unfoldable pub vote_is_active : ℕ → Votes → Bool
vote_is_active id s = elim (timing_of id s) [ none ↦ false | some v ↦ v.active ]

unfoldable pub vote_timeout : ℕ → Votes → ℤ
vote_timeout id s = elim (timing_of id s) [ none ↦ pos 0 | some v ↦ v.start_time +ℤ v.duration_ns ]
