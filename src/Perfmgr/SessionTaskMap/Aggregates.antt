-- ===== src/Perfmgr/SessionTaskMap/Aggregates.antt =====
-- The queries that combine the votes of several sessions.
use mathlib.Core.Path.{subst}
use hardware_voltage_interfa.Base.{
  ℕ, ◌≡◌, refl, sym, ap, ◌∙◌, true, false, not, Option, none, some, List, [], ◌∷◌, arith, ◌==◌,
  if◌then◌else◌, Bool-cases, ==_iff, inl, inr,
}
use hardware_voltage_interfa.Base.Int.{ℤ, pos, ◌≤ℤ◌, max_ℤ, min_ℤ}
use hardware_voltage_interfa.Base.Dict.{Dict, find}
use hardware_voltage_interfa.Perfmgr.Votes.{
  Votes, UclampRange, CpuVote, get_uclamp_range, all_timed_out,
}
use hardware_voltage_interfa.Perfmgr.Votes.Range.{Within, get_uclamp_range-IsTightest}
use hardware_voltage_interfa.Perfmgr.Votes.Timeout.{all_timed_out_silent}
use hardware_voltage_interfa.Perfmgr.SessionTaskMap.{
  SessionTaskMap, SessionValueEntry, ValEntry, Efficiency, holds, cap_efficient, vote_range_loop,
  get_task_vote_range, gpu_capacity_loop, get_sessions_gpu_capacity, any_active_loop,
  is_any_app_session_active, all_timeout_loop, are_all_sessions_timeout, votes_of,
}

-- `q` lies within `r`.
abbrev pub IsTighter : UclampRange → UclampRange → Type 0
IsTighter r q = (r.uclamp_min ≤ℤ q.uclamp_min) × (q.uclamp_max ≤ℤ r.uclamp_max)

IsTighter-trans : (r q p : UclampRange) → IsTighter r q → IsTighter q p → IsTighter r p
IsTighter-trans r q p h k = omega arith

Within-mono :
    (r q : UclampRange) (m : Dict CpuVote) (t : ℤ)
    → IsTighter r q
    → Within r.uclamp_min r.uclamp_max m t
    → Within q.uclamp_min q.uclamp_max m t
Within-mono r q [] t h w = tt
Within-mono r q ((j, v) ∷ m) t h w =
    (λ e. let (lo, hi) = w.0 e in (omega arith, omega arith), Within-mono r q m t h w.1)

cap_efficient-IsTighter :
    (e : SessionValueEntry) (v : Votes) (t : ℤ) (f : Option Efficiency) (r : UclampRange)
    → IsTighter r (cap_efficient e v t f r)
unfolding cap_efficient min_ℤ
cap_efficient-IsTighter e v t none r = (omega arith, omega arith)
cap_efficient-IsTighter e v t (some f) r = ground arith

module _ (m : SessionTaskMap) (t : ℤ) (f : Option Efficiency) where
  -- One round of the loop.
  abbrev round : ℕ → UclampRange → UclampRange
  round p r =
      let e = m.entries p in
      let v = m.votes e.votes in
      if not e.is_active then r else cap_efficient e v t f (get_uclamp_range v r t)

  abbrev capped : ℕ → UclampRange → UclampRange
  capped p r =
      let e = m.entries p in
      let v = m.votes e.votes in cap_efficient e v t f (get_uclamp_range v r t)

  round_on : (p : ℕ) (r : UclampRange) → (m.entries p).is_active ≡ true → round p r ≡ capped p r
  round_on p r on = λ i. if not (on i) then r else capped p r

  round_off : (p : ℕ) (r : UclampRange) → (m.entries p).is_active ≡ false → round p r ≡ r
  round_off p r off = λ i. if not (off i) then r else capped p r

  capped-IsTighter :
      (p : ℕ) (r : UclampRange)
      → let v = m.votes (m.entries p).votes in
        IsTighter r (capped p r)
        × Within (capped p r).uclamp_min (capped p r).uclamp_max v.cpu_votes t
  capped-IsTighter p r =
      let v = m.votes (m.entries p).votes in
      let q = get_uclamp_range v r t in
      let tight = get_uclamp_range-IsTightest v r t in
      let cap = cap_efficient-IsTighter (m.entries p) v t f q in
      (
        IsTighter-trans r q (capped p r) (tight.min_grows, tight.max_shrinks) cap,
        Within-mono q (capped p r) v.cpu_votes t cap tight.bounds,
      )

  round-IsTighter : (p : ℕ) (r : UclampRange) → IsTighter r (round p r)
  round-IsTighter p r = elim (Bool-cases (m.entries p).is_active) [
    | inl on ↦ subst (IsTighter r) (sym (round_on p r on)) (capped-IsTighter p r).0
    | inr off ↦ subst (IsTighter r) (sym (round_off p r off)) (omega arith, omega arith)
  ]

  round-Within :
      (p : ℕ) (r : UclampRange)
      → (m.entries p).is_active ≡ true
      → let q = round p r in
        Within q.uclamp_min q.uclamp_max (m.votes (m.entries p).votes).cpu_votes t
  round-Within p r on =
      subst (λ q. Within q.uclamp_min q.uclamp_max (m.votes (m.entries p).votes).cpu_votes t)
        (sym (round_on p r on)) (capped-IsTighter p r).1

  loop-IsTighter : (ps : List ℕ) (r : UclampRange) → IsTighter r (vote_range_loop m t f ps r)
  unfolding vote_range_loop
  loop-IsTighter [] r = (omega arith, omega arith)
  loop-IsTighter (p ∷ ps) r =
      IsTighter-trans r (round p r) (vote_range_loop m t f ps (round p r)) (round-IsTighter p r)
        (loop-IsTighter ps (round p r))

  loop-Within :
      (ps : List ℕ) (r : UclampRange) (p : ℕ)
      → holds p ps ≡ true
      → (m.entries p).is_active ≡ true
      → let q = vote_range_loop m t f ps r in
        Within q.uclamp_min q.uclamp_max (m.votes (m.entries p).votes).cpu_votes t
  unfolding vote_range_loop holds
  loop-Within [] r p h on = cc
  loop-Within (x ∷ ps) r p h on = elim (Bool-cases (x == p)) [
    | inl hit ↦
        let here : p ≡ x = sym ((==_iff x p).0 hit) in
        let q = vote_range_loop m t f ps (round x r) in
        subst (λ y. Within q.uclamp_min q.uclamp_max (m.votes (m.entries y).votes).cpu_votes t)
          ((==_iff x p).0 hit)
          (Within-mono (round x r) q (m.votes (m.entries x).votes).cpu_votes t
            (loop-IsTighter ps (round x r))
            (round-Within x r (ap (λ y. (m.entries y).is_active) (sym here) ∙ on)))
    | inr miss ↦ loop-Within ps (round x r) p (ground (arith, miss, h)) on
  ]

-- The range of a task lies within the range given, and within every CPU vote in force of every
-- active session that the task is linked to, with or without the power efficiency cap.
pub get_task_vote_range_bounds :
    (m : SessionTaskMap) (task p : ℕ) (ps : List ℕ) (t : ℤ) (f : Option Efficiency)
    (r : UclampRange)
    → find task m.tasks ≡ some ps
    → holds p ps ≡ true
    → (m.entries p).is_active ≡ true
    → let q = get_task_vote_range m task t f r in
      IsTighter r q × Within q.uclamp_min q.uclamp_max (m.votes (m.entries p).votes).cpu_votes t
unfolding get_task_vote_range
get_task_vote_range_bounds m task p ps t f r e h on =
    rw (e, get_task_vote_range) (loop-IsTighter m t f ps r, loop-Within m t f ps r p h on)

max_zero : (a : ℤ) → pos 0 ≤ℤ a → max_ℤ a (pos 0) ≡ a
unfolding max_ℤ
max_zero a h = ground arith

module _ (m : SessionTaskMap) (t : ℤ) where
  all_timeout-any_active :
      (es : Dict ValEntry) → all_timeout_loop m t es ≡ true → any_active_loop m t es ≡ false
  unfolding all_timeout_loop any_active_loop
  all_timeout-any_active [] h = refl
  all_timeout-any_active ((_, e) ∷ es) h = ground (arith, all_timeout-any_active es)

  all_timeout-gpu :
      (es : Dict ValEntry) (acc : ℤ)
      → pos 0 ≤ℤ acc
      → all_timeout_loop m t es ≡ true
      → gpu_capacity_loop m t es acc ≡ acc
  unfolding all_timeout_loop gpu_capacity_loop
  all_timeout-gpu [] acc le h = refl
  all_timeout-gpu ((_, e) ∷ es) acc le h = elim (Bool-cases (all_timed_out (votes_of m e) t)) [
    | inl out ↦
        let silent =
          (all_timed_out_silent (votes_of m e) (record { uclamp_min = acc; uclamp_max = acc }) t
            out).1 in
        rw (silent, max_zero acc le) (all_timeout-gpu es acc le (ground (arith, out, h)))
    | inr some_in ↦ ground (arith, some_in, h)
  ]

-- Where all sessions have timed out, no app session is active and no GPU capacity is asked for.
pub are_all_sessions_timeout_silent :
    (m : SessionTaskMap) (t : ℤ)
    → are_all_sessions_timeout m t ≡ true
    → (is_any_app_session_active m t ≡ false) × (get_sessions_gpu_capacity m t ≡ pos 0)
unfolding are_all_sessions_timeout is_any_app_session_active get_sessions_gpu_capacity
are_all_sessions_timeout_silent m t h = (
  all_timeout-any_active m t m.sessions h,
  all_timeout-gpu m t m.sessions (pos 0) (omega arith) h,
)
