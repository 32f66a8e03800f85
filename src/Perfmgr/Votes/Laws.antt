-- ===== src/Perfmgr/Votes/Laws.antt =====
-- The operations that change the votes: well-formedness, and the abstract map that they implement.
use mathlib.Core.Option
use hardware_voltage_interfa.Base.{
  ℕ, ◌≡◌, Bool, true, false, not, ◌&&◌, Option, none, some, [], ◌∷◌, arith, ◌==◌, if◌then◌else◌,
}
use hardware_voltage_interfa.Base.Int.{ℤ}
use hardware_voltage_interfa.Base.Dict.{
  Dict, assign, erase, update, Distinct, find-assign, find-erase_ne, find-erase_self, find-update,
  assign-Distinct, erase-Distinct, update-Distinct,
}
use hardware_voltage_interfa.Perfmgr.Votes.{
  Votes, CpuVote, GpuVote, VoteRange, is_gpu_vote, add_cpu, add_gpu, update_duration, remove,
  set_use_vote, set_active, set_duration, change_cpu, change_gpu, timing_of,
}

pub data Op : Type 0 where
  adds_cpu : ℕ → CpuVote → Op
  adds_gpu : ℕ → GpuVote → Op
  updates : ℕ → ℤ → Op
  removes : ℕ → Op
  uses : ℕ → Bool → Op

unfoldable pub step : Op → Votes → Votes
step (adds_cpu id v) s = add_cpu id v s
step (adds_gpu id v) s = add_gpu id v s
step (updates id d) s = update_duration id d s
step (removes id) s = (remove id s).0
step (uses id a) s = (set_use_vote id a s).0

module _ {ℓ} {V : Type ℓ} where
  -- Every key of the map is on the side `b` of the split between CPU and GPU ids.
  abbrev pub KeysAre : Bool → Dict V → Type 0
  KeysAre b [] = Unit
  KeysAre b ((j, v) ∷ m) = (is_gpu_vote j ≡ b) × KeysAre b m

  assign-KeysAre :
      (b : Bool) (k : ℕ) (v : V) (m : Dict V)
      → is_gpu_vote k ≡ b
      → KeysAre b m
      → KeysAre b (assign k v m)
  unfolding assign
  assign-KeysAre b k v [] e h = (e, tt)
  assign-KeysAre b k v ((j, w) ∷ m) e h = ground (arith, assign-KeysAre b k v m e h.1)

  erase-KeysAre : (b : Bool) (k : ℕ) (m : Dict V) → KeysAre b m → KeysAre b (erase k m)
  unfolding erase
  erase-KeysAre b k [] h = tt
  erase-KeysAre b k ((j, w) ∷ m) h = ground (arith, erase-KeysAre b k m h.1)

  update-KeysAre :
      (b : Bool) (k : ℕ) (f : V → V) (m : Dict V) → KeysAre b m → KeysAre b (update k f m)
  unfolding update
  update-KeysAre b k f [] h = tt
  update-KeysAre b k f ((j, w) ∷ m) h = ground (arith, update-KeysAre b k f m h.1)

-- Each map holds a key once, and holds only ids of its own side.
pub record IsWellFormed (s : Votes) : Type 0 where
  pub cpu_distinct : Distinct s.cpu_votes
  pub gpu_distinct : Distinct s.gpu_votes
  pub cpu_ids : KeysAre false s.cpu_votes
  pub gpu_ids : KeysAre true s.gpu_votes

-- Every operation keeps the votes well-formed: each map holds a key once, CPU votes stand under CPU
-- ids and GPU votes under GPU ids.
pub step-IsWellFormed : (op : Op) (s : Votes) → IsWellFormed s → IsWellFormed (step op s)
unfolding step add_cpu add_gpu update_duration remove set_use_vote
step-IsWellFormed (adds_cpu id v) s w =
    ground (arith, assign-Distinct id v s.cpu_votes, assign-KeysAre false id v s.cpu_votes)
step-IsWellFormed (adds_gpu id v) s w =
    ground (arith, assign-Distinct id v s.gpu_votes, assign-KeysAre true id v s.gpu_votes)
step-IsWellFormed (updates id d) s w = grind (arith, update-Distinct, update-KeysAre)
step-IsWellFormed (removes id) s w = grind (arith, erase-Distinct, erase-KeysAre)
step-IsWellFormed (uses id a) s w = grind (arith, update-Distinct, update-KeysAre)

-- The abstract view: the timing of the vote under each id.
abbrev pub View : Type 0
View = ℕ → Option VoteRange

abbrev pub view : Votes → View
view s id = timing_of id s

-- What each operation does to the view.
abbrev pub spec : Op → View → View
spec (adds_cpu id v) f j = if not (is_gpu_vote id) && id == j then some v.timing else f j
spec (adds_gpu id v) f j = if is_gpu_vote id && id == j then some v.timing else f j
spec (updates id d) f j = if id == j then Option.map (set_duration d) (f j) else f j
spec (removes id) f j = if id == j then none else f j
spec (uses id a) f j = if id == j then Option.map (set_active a) (f j) else f j

-- On well-formed votes every operation acts on the timing of each id as its abstract counterpart: it
-- changes the vote with its own id alone, an add under an id of the other side changes nothing, and
-- updates, activations and removals take effect under every id.
pub view-step :
    (op : Op) (s : Votes) (j : ℕ) → IsWellFormed s → view (step op s) j ≡ spec op (view s) j
unfolding step add_cpu add_gpu update_duration remove set_use_vote timing_of
view-step (adds_cpu id v) s j w = ground (arith, find-assign id j v s.cpu_votes)
view-step (adds_gpu id v) s j w = ground (arith, find-assign id j v s.gpu_votes)
view-step (updates id d) s j w = ground (
  arith,
  find-update id j (change_cpu (set_duration d)) s.cpu_votes,
  find-update id j (change_gpu (set_duration d)) s.gpu_votes,
)
view-step (removes id) s j w = ground (
  arith,
  find-erase_ne id j s.cpu_votes,
  find-erase_ne id j s.gpu_votes,
  find-erase_self id s.cpu_votes,
  find-erase_self id s.gpu_votes,
)
view-step (uses id a) s j w = ground (
  arith,
  find-update id j (change_cpu (set_active a)) s.cpu_votes,
  find-update id j (change_gpu (set_active a)) s.gpu_votes,
)
