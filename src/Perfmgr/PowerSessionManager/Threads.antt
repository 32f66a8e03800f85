-- ===== src/Perfmgr/PowerSessionManager/Threads.antt =====
-- power-libperfmgr/aidl/PowerSessionManager.cpp: the votes of the sessions as a session gets other
-- threads and as its entry changes.
use mathlib.Core.Path.{subst}
use hardware_voltage_interfa.Base.{
  ℕ, ◌≡◌, ◌≢◌, ◌⊎◌, inl, inr, refl, sym, ap, ◌∙◌, Bool, none, some, List, arith, Option-cases,
  Bool-cases,
}
use hardware_voltage_interfa.Base.Int.{ℤ}
use hardware_voltage_interfa.Base.Dict.{
  Dict, find, assign, Distinct, find-assign, assign-Distinct, find-erase_self,
}
use hardware_voltage_interfa.Perfmgr.SessionTaskMap.{
  SessionTaskMap, ValEntry, SessionValueEntry, remove, replace, add, find_session,
}
use hardware_voltage_interfa.Perfmgr.PowerSessionManager.{
  Settings, PowerSessionManager, apply_cpu_and_gpu_votes, force_session_active,
  set_prefer_power_efficiency, same_bool, change_map, change_entry,
}
use hardware_voltage_interfa.Perfmgr.PowerSessionManager.Active.{IsSound}
use hardware_voltage_interfa.Perfmgr.PowerSessionManager.Kept.{
  KeepsVotes, KeepsVotes-refl, KeepsVotes-trans, KeepsVotes-IsSound, apply_uclamp-KeepsVotes,
  change_entry-KeepsVotes, remove-KeepsVotes,
}

pub after_assign :
    (id j : ℕ) (v e : ValEntry) (s : Dict ValEntry)
    → find j (assign id v s) ≡ some e
    → ((id ≡ j) × (v ≡ e)) ⊎ ((id ≢ j) × (find j s ≡ some e))
after_assign id j v e s h = ground (arith, find-assign id j v s)

add-KeepsVotes :
    (id : ℕ) (sv : SessionValueEntry) (tasks : List ℕ) (m n : SessionTaskMap) (f : ValEntry)
    → find id m.sessions ≡ some f
    → sv.votes ≡ (m.entries f.val).votes
    → IsSound m
    → KeepsVotes m n
    → n.next ≡ m.next
    → find id n.sessions ≡ none
    → KeepsVotes m (add id sv tasks n).0
unfolding add
add-KeepsVotes id sv tasks m n f there same sound kept next gone =
    rw (gone, add)
      (record {
        same_votes = kept.same_votes;
        no_less = omega (arith, kept.no_less);
        origin = λ j e h.
            elim (after_assign id j (record { val = n.next; linked_tasks = tasks }) e n.sessions
              h) [
                | inl (eq, new) ↦ (
                  f,
                  ap (λ i. find i m.sessions) (sym eq) ∙ there,
                  ground (arith, same, ap (λ (g : ValEntry). g.val) new),
                  inr (ground (arith, ap (λ (g : ValEntry). g.val) new)),
                )
                | inr (other, old) ↦
                    let (g, found, alike, at) = kept.origin j e old in
                    let low = sound.below j g found in
                    (g, found, ground (arith, low), ground (arith, low))
              ];
        still_distinct =
            assign-Distinct id (record { val = n.next; linked_tasks = tasks }) n.sessions
              kept.still_distinct;
      })

remove_gone :
    (id : ℕ) (m : SessionTaskMap)
    → Distinct m.sessions
    → (find id (remove id m).0.sessions ≡ none) × ((remove id m).0.next ≡ m.next)
unfolding remove
remove_gone id m d = ground (arith, find-erase_self id m.sessions d)

pub replaced-KeepsVotes :
    (id : ℕ) (tids : List ℕ) (m n : SessionTaskMap) (added removed : List ℕ)
    → replace id tids m ≡ some (n, added, removed)
    → IsSound m
    → KeepsVotes m n
unfolding replace
replaced-KeepsVotes id tids m n added removed h sound = elim (Option-cases (find id m.sessions)) [
  | inl gone ↦ absurd (ground arith)
  | inr (e, there) ↦
      let (gone, next) = remove_gone id m sound.distinct in
      let made : (add id (m.entries e.val) tids (remove id m).0).0 ≡ n = ground arith in
      subst (KeepsVotes m) made (
        add-KeepsVotes id (m.entries e.val) tids m (remove id m).0 e there refl sound
          (remove-KeepsVotes id m sound.distinct) next gone)
]

-- A method of the manager keeps the votes of the sessions and the events that wait.
pub record Keeps (s t : PowerSessionManager) : Type 0 where
  pub map_kept : KeepsVotes s.session_task_map t.session_task_map
  pub same_timeouts : t.timeouts ≡ s.timeouts

pub Keeps-refl : (s : PowerSessionManager) → IsSound s.session_task_map → Keeps s s
Keeps-refl s sound = record {
  map_kept = KeepsVotes-refl s.session_task_map sound.distinct;
  same_timeouts = refl;
}

pub Keeps-trans : (s t u : PowerSessionManager) → Keeps s t → Keeps t u → Keeps s u
Keeps-trans s t u a b = record {
  map_kept =
      KeepsVotes-trans s.session_task_map t.session_task_map u.session_task_map a.map_kept
        b.map_kept;
  same_timeouts = b.same_timeouts ∙ a.same_timeouts;
}

pub Keeps-IsSound :
    (s t : PowerSessionManager)
    → Keeps s t
    → IsSound s.session_task_map
    → IsSound t.session_task_map
Keeps-IsSound s t kept sound =
    KeepsVotes-IsSound s.session_task_map t.session_task_map kept.map_kept sound

pub apply-Keeps :
    (c : Settings) (dead : ℕ → Bool) (id : ℕ) (now : ℤ) (s : PowerSessionManager)
    → IsSound s.session_task_map
    → Keeps s (apply_cpu_and_gpu_votes c dead id now s).0
unfolding apply_cpu_and_gpu_votes
apply-Keeps c dead id now s sound = record {
  map_kept = apply_uclamp-KeepsVotes c dead id now s.session_task_map sound.distinct;
  same_timeouts = refl;
}

pub change_entry-Keeps :
    (id : ℕ) (f : SessionValueEntry → SessionValueEntry) (s : PowerSessionManager)
    → ((v : SessionValueEntry) → (f v).votes ≡ v.votes)
    → IsSound s.session_task_map
    → Keeps s (change_map (change_entry id f) s)
change_entry-Keeps id f s keeps sound = record {
  map_kept = change_entry-KeepsVotes id f s.session_task_map keeps sound.distinct;
  same_timeouts = refl;
}

-- An entry is changed and its votes are applied.
pub changed-Keeps :
    (c : Settings) (dead : ℕ → Bool) (id : ℕ) (now : ℤ) (f : SessionValueEntry → SessionValueEntry)
    (s : PowerSessionManager)
    → ((v : SessionValueEntry) → (f v).votes ≡ v.votes)
    → IsSound s.session_task_map
    → Keeps s (apply_cpu_and_gpu_votes c dead id now (change_map (change_entry id f) s)).0
changed-Keeps c dead id now f s keeps sound =
    let first = change_entry-Keeps id f s keeps sound in
    let t = change_map (change_entry id f) s in
    Keeps-trans s t (apply_cpu_and_gpu_votes c dead id now t).0 first
      (apply-Keeps c dead id now t (Keeps-IsSound s t first sound))

pub force_session_active-Keeps :
    (c : Settings) (dead : ℕ → Bool) (now : ℤ) (id : ℕ) (a : Bool) (s : PowerSessionManager)
    → IsSound s.session_task_map
    → Keeps s (force_session_active c dead now id a s).0
unfolding force_session_active
force_session_active-Keeps c dead now id a s sound =
    elim (Option-cases (find_session id s.session_task_map)) [
      | inl gone ↦ rw (gone, force_session_active) (Keeps-refl s sound)
      | inr (e, there) ↦
          rw (there, force_session_active)
            (changed-Keeps c dead id now (λ (v : SessionValueEntry). record v { is_active = a }) s
              (λ v. refl) sound)
    ]

pub set_prefer_power_efficiency-Keeps :
    (c : Settings) (dead : ℕ → Bool) (now : ℤ) (id : ℕ) (enabled : Bool) (s : PowerSessionManager)
    → IsSound s.session_task_map
    → Keeps s (set_prefer_power_efficiency c dead now id enabled s).0
unfolding set_prefer_power_efficiency apply_cpu_and_gpu_votes
set_prefer_power_efficiency-Keeps c dead now id enabled s sound =
    elim (Option-cases (find_session id s.session_task_map)) [
      | inl gone ↦ rw (gone, set_prefer_power_efficiency) (Keeps-refl s sound)
      | inr (e, there) ↦ elim (Bool-cases (same_bool enabled e.is_power_efficient)) [
        | inl same ↦ rw (there, same, set_prefer_power_efficiency) (Keeps-refl s sound)
        | inr other ↦
            let applied =
              changed-Keeps c dead id now
                (λ (v : SessionValueEntry). record v { is_power_efficient = enabled }) s (λ v. refl)
                sound in
            rw (there, other, set_prefer_power_efficiency)
              (record { map_kept = applied.map_kept; same_timeouts = refl })
      ]
    ]
