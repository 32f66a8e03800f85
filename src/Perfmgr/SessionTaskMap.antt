-- ===== src/Perfmgr/SessionTaskMap.antt =====
-- power-libperfmgr/aidl/SessionTaskMap.h and SessionTaskMap.cpp: sessions and tasks, linked both ways.
-- A `shared_ptr` is a number: `entries` and `votes` are the store of the objects pointed to, and
-- `next` is the next unused address. Session, task and vote ids are only compared, so each stands as
-- the number of its bits. Of a `SessionValueEntry` the fields that no method of the map reads are
-- left out.
pub mod Links
pub mod Invariant
pub mod Operations
pub mod Replace
pub mod Queries
pub mod Aggregates
pub mod History
mod Tests
use hardware_voltage_interfa.Base.{
  ℕ, suc, ◌+◌, ◌-◌, Bool, true, false, not, ◌&&◌, ◌||◌, Option, none, some, List, [], ◌∷◌, ◌++◌,
  map, ◌==◌, if◌then◌else◌, length,
}
use hardware_voltage_interfa.Base.Int.{ℤ, pos, ◌+ℤ◌, max_ℤ, min_ℤ}
use hardware_voltage_interfa.Base.Dict.{Dict, find, assign, erase}
use hardware_voltage_interfa.Perfmgr.Votes.{
  Votes, UclampRange, CpuVote, GpuVote, default_range, add_cpu, add_gpu, get_uclamp_range,
  get_gpu_capacity_request, all_timed_out,
}

pub record SessionValueEntry : Type 0 where
  pub session_id : ℕ
  pub id_string : List ℕ
  pub is_active : Bool
  pub is_app_session : Bool
  pub votes : ℕ
  pub is_power_efficient : Bool

pub record ValEntry : Type 0 where
  pub val : ℕ
  pub linked_tasks : List ℕ

pub record SessionTaskMap : Type 0 where
  pub sessions : Dict ValEntry
  pub tasks : Dict (List ℕ)
  pub entries : ℕ → SessionValueEntry
  pub votes : ℕ → Votes
  pub next : ℕ

-- A write to the store.
abbrev pub store {ℓ} : {A : Type ℓ} → ℕ → A → (ℕ → A) → ℕ → A
store p a f q = if p == q then a else f q

-- The vector under a key; none is there if the key is not.
abbrev pub entries_of : Option (List ℕ) → List ℕ
entries_of none = []
entries_of (some ps) = ps

-- `mTasks[taskId].push_back(sessValPtr)`
unfoldable pub link : ℕ → Dict (List ℕ) → ℕ → Dict (List ℕ)
link p m task = assign task (entries_of (find task m) ++ p ∷ []) m

-- The loop of `add` over the task ids.
unfoldable pub link_all : ℕ → Dict (List ℕ) → List ℕ → Dict (List ℕ)
link_all p m [] = m
link_all p m (task ∷ tasks) = link_all p (link p m task) tasks

unfoldable pub add : ℕ → SessionValueEntry → List ℕ → SessionTaskMap → SessionTaskMap × Bool
add id sv task_ids m = elim (find id m.sessions) [
  | some _ ↦ (m, false)
  | none ↦ (
    record m {
      sessions = assign id (record { val = m.next; linked_tasks = task_ids }) m.sessions;
      tasks = link_all m.next m.tasks task_ids;
      entries = store m.next (record sv { session_id = id }) m.entries;
      next = suc m.next;
    },
    true,
  )
]

unfoldable pub holds : ℕ → List ℕ → Bool
holds p [] = false
holds p (q ∷ qs) = q == p || holds p qs

-- `v.erase(std::find(v.begin(), v.end(), p))`
unfoldable pub erase_first : ℕ → List ℕ → List ℕ
erase_first p [] = []
erase_first p (q ∷ qs) = if q == p then qs else q ∷ erase_first p qs

-- `it->second.erase(...)`, and the key goes with the last entry.
abbrev pub put_back : ℕ → List ℕ → Dict (List ℕ) → Dict (List ℕ)
put_back task [] m = erase task m
put_back task (q ∷ qs) m = assign task (q ∷ qs) m

-- One round of the loop of `remove`, also the body of `removeDeadTaskSessionMap`.
unfoldable pub unlink : ℕ → Dict (List ℕ) → ℕ → Dict (List ℕ)
unfolding holds erase_first
unlink p m task = elim (find task m) [
  | none ↦ m
  | some ps ↦ if not (holds p ps) then m else put_back task (erase_first p ps) m
]

unfoldable pub unlink_all : ℕ → Dict (List ℕ) → List ℕ → Dict (List ℕ)
unlink_all p m [] = m
unlink_all p m (task ∷ tasks) = unlink_all p (unlink p m task) tasks

unfoldable pub remove : ℕ → SessionTaskMap → SessionTaskMap × Bool
remove id m = elim (find id m.sessions) [
  | none ↦ (m, false)
  | some e ↦ (
    record m { sessions = erase id m.sessions; tasks = unlink_all e.val m.tasks e.linked_tasks },
    true,
  )
]

unfoldable pub remove_dead_task_session_map : ℕ → ℕ → SessionTaskMap → SessionTaskMap × Bool
remove_dead_task_session_map id task m = elim (find id m.sessions) [
  | none ↦ (m, false)
  | some e ↦ elim (find task m.tasks) [
    | none ↦ (m, false)
    | some ps ↦
        if not (holds e.val ps)
        then (m, false)
        else (record m { tasks = unlink e.val m.tasks task }, true)
  ]
]

-- The ids among `tids` that the task map does not hold.
unfoldable pub unmapped : Dict (List ℕ) → List ℕ → List ℕ
unmapped m [] = []
unmapped m (tid ∷ tids) = elim (find tid m) [
  | none ↦ tid ∷ unmapped m tids
  | some _ ↦ unmapped m tids
]

-- The new map, `addedThreads` and `removedThreads`; `none` where the session is not there. The code
-- appends the two lists to vectors that a caller may leave out.
unfoldable pub replace : ℕ → List ℕ → SessionTaskMap → Option (SessionTaskMap × List ℕ × List ℕ)
replace id task_ids m = elim (find id m.sessions) [
  | none ↦ none
  | some e ↦
      let added = unmapped m.tasks task_ids in
      let n = (add id (m.entries e.val) task_ids (remove id m).0).0 in
      some (n, added, unmapped n.tasks e.linked_tasks)
]

-- `votes->add` on the votes of a session that is there.
unfoldable pub change_votes : ℕ → (Votes → Votes) → SessionTaskMap → SessionTaskMap
change_votes id f m = elim (find id m.sessions) [
  | none ↦ m
  | some e ↦ let v = (m.entries e.val).votes in record m { votes = store v (f (m.votes v)) m.votes }
]

unfoldable pub add_vote : ℕ → ℕ → ℤ → ℤ → ℤ → ℤ → SessionTaskMap → SessionTaskMap
add_vote id vote_id uclamp_min uclamp_max start duration = change_votes id (
    add_cpu vote_id (record {
      timing = record { active = true; start_time = start; duration_ns = duration };
      uclamp_range = record { uclamp_min = uclamp_min; uclamp_max = uclamp_max };
    }))

unfoldable pub add_gpu_vote : ℕ → ℕ → ℤ → ℤ → ℤ → SessionTaskMap → SessionTaskMap
add_gpu_vote id vote_id capacity start duration = change_votes id (
    add_gpu vote_id (record {
      timing = record { active = true; start_time = start; duration_ns = duration };
      capacity = capacity;
    }))

unfoldable pub find_session : ℕ → SessionTaskMap → Option SessionValueEntry
find_session id m = elim (find id m.sessions) [ none ↦ none | some e ↦ some (m.entries e.val) ]

unfoldable pub get_session_ids : ℕ → SessionTaskMap → List ℕ
get_session_ids task m = map (λ p. (m.entries p).session_id) (entries_of (find task m.tasks))

unfoldable pub get_task_ids : ℕ → SessionTaskMap → List ℕ
get_task_ids id m = elim (find id m.sessions) [ none ↦ [] | some e ↦ e.linked_tasks ]

-- `uclampMaxEfficientBase` and `uclampMaxEfficientOffset`: the code reads the second only where the
-- first has a value, and then without a test.
pub record Efficiency : Type 0 where
  pub base : ℤ
  pub offset : ℤ

-- The end of the body of the loop of `getTaskVoteRange`.
unfoldable pub cap_efficient :
    SessionValueEntry → Votes → ℤ → Option Efficiency → UclampRange → UclampRange
cap_efficient e v t none r = r
cap_efficient e v t (some f) r =
    if e.is_power_efficient
    then record r {
      uclamp_max =
          min_ℤ r.uclamp_max (if all_timed_out v t then f.base else r.uclamp_min +ℤ f.offset);
    }
    else r

unfoldable pub vote_range_loop :
    SessionTaskMap → ℤ → Option Efficiency → List ℕ → UclampRange → UclampRange
unfolding cap_efficient
vote_range_loop m t f [] r = r
vote_range_loop m t f (p ∷ ps) r =
    let e = m.entries p in
    let v = m.votes e.votes in
    vote_range_loop m t f ps
      (if not e.is_active then r else cap_efficient e v t f (get_uclamp_range v r t))

unfoldable pub get_task_vote_range :
    SessionTaskMap → ℕ → ℤ → Option Efficiency → UclampRange → UclampRange
get_task_vote_range m task t f r = elim (find task m.tasks) [
  | none ↦ default_range
  | some ps ↦ vote_range_loop m t f ps r
]

abbrev pub value_or {ℓ} : {A : Type ℓ} → A → Option A → A
value_or a none = a
value_or a (some b) = b

-- The votes of the session that a `ValEntry` points to.
abbrev pub votes_of : SessionTaskMap → ValEntry → Votes
votes_of m e = m.votes (m.entries e.val).votes

unfoldable pub gpu_capacity_loop : SessionTaskMap → ℤ → Dict ValEntry → ℤ → ℤ
gpu_capacity_loop m t [] acc = acc
gpu_capacity_loop m t ((_, e) ∷ es) acc =
    gpu_capacity_loop m t es
      (max_ℤ acc (value_or (pos 0) (get_gpu_capacity_request (votes_of m e) t)))

unfoldable pub get_sessions_gpu_capacity : SessionTaskMap → ℤ → ℤ
get_sessions_gpu_capacity m t = gpu_capacity_loop m t m.sessions (pos 0)

unfoldable pub any_active_loop : SessionTaskMap → ℤ → Dict ValEntry → Bool
any_active_loop m t [] = false
any_active_loop m t ((_, e) ∷ es) =
    let rest = any_active_loop m t es in
    if not (m.entries e.val).is_app_session
    then rest
    else if not (m.entries e.val).is_active
    then rest
    else if not (all_timed_out (votes_of m e) t)
    then true
    else rest

unfoldable pub is_any_app_session_active : SessionTaskMap → ℤ → Bool
is_any_app_session_active m t = any_active_loop m t m.sessions

unfoldable pub all_timeout_loop : SessionTaskMap → ℤ → Dict ValEntry → Bool
all_timeout_loop m t [] = true
all_timeout_loop m t ((_, e) ∷ es) =
    if not (all_timed_out (votes_of m e) t) then false else all_timeout_loop m t es

unfoldable pub are_all_sessions_timeout : SessionTaskMap → ℤ → Bool
are_all_sessions_timeout m t = all_timeout_loop m t m.sessions

unfoldable pub size_sessions : SessionTaskMap → ℕ
size_sessions m = length m.sessions

unfoldable pub size_tasks : SessionTaskMap → ℕ
size_tasks m = length m.tasks

unfoldable pub id_string : ℕ → SessionTaskMap → List ℕ
id_string id m = elim (find id m.sessions) [ none ↦ [] | some e ↦ (m.entries e.val).id_string ]

unfoldable pub is_app_session : ℕ → SessionTaskMap → Bool
is_app_session id m = elim (find id m.sessions) [
  | none ↦ false
  | some e ↦ (m.entries e.val).is_app_session
]

-- `forEachSessionInTask` with a callback that records what it is called with.
unfoldable pub sessions_loop : SessionTaskMap → List ℕ → List (ℕ × SessionValueEntry)
sessions_loop m [] = []
sessions_loop m (p ∷ ps) =
    let rest = sessions_loop m ps in
    elim (find (m.entries p).session_id m.sessions) [
      | none ↦ rest
      | some e ↦ ((m.entries p).session_id, m.entries e.val) ∷ rest
    ]

unfoldable pub for_each_session_in_task : ℕ → SessionTaskMap → List (ℕ × SessionValueEntry)
for_each_session_in_task task m = sessions_loop m (entries_of (find task m.tasks))
