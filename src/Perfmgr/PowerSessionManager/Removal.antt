-- ===== src/Perfmgr/PowerSessionManager/Removal.antt =====
-- power-libperfmgr/aidl/PowerSessionManager.cpp: removing a session that is there, and one that is not.
use mathlib.Core.Path.{subst}
use hardware_voltage_interfa.Base.{ℕ, ◌≡◌, ◌↔◌, refl, ◌∙◌, Bool, false, Option, none, some, arith}
use hardware_voltage_interfa.Base.Int.{ℤ}
use hardware_voltage_interfa.Base.Dict.{find, find-assign}
use hardware_voltage_interfa.Perfmgr.SessionTaskMap.{SessionTaskMap, SessionValueEntry, ValEntry}
use hardware_voltage_interfa.Perfmgr.PowerSessionManager.{
  Settings, PowerSessionManager, apply_uclamp, apply_to, apply_loop, apply_cpu_and_gpu_votes,
  change_entry, force_session_active,
}
use hardware_voltage_interfa.Perfmgr.PowerSessionManager.Kept.{SameVotes, apply_loop-SameVotes}
use hardware_voltage_interfa.Perfmgr.PowerSessionManager.Sessions.{
  Manager, Outcome, Profile, Now, address_of, force_active,
}
use hardware_voltage_interfa.Perfmgr.PowerSessionManager.Lifetime.{remove_at, remove_power_session}

-- The address of the entry in the map.
unfoldable pub address_in : ℕ → SessionTaskMap → Option ℕ
address_in id m = elim (find id m.sessions) [ none ↦ none | some e ↦ some e.val ]

apply_to-address :
    (c : Settings) (dead : ℕ → Bool) (id : ℕ) (t : ℤ) (m : SessionTaskMap) (o : Option ValEntry)
    → find id m.sessions ≡ o
    → address_in id (apply_to c dead id t m o).0 ≡ address_in id m
unfolding address_in apply_to SameVotes
apply_to-address c dead id t m none h = refl
apply_to-address c dead id t m (some e) h = ground (
  arith,
  apply_loop-SameVotes c dead id t e.linked_tasks m,
  find-assign id id
      (record { val = e.val; linked_tasks = (apply_loop c dead id t e.linked_tasks m).1 })
      (apply_loop c dead id t e.linked_tasks m).0.sessions,
)

change_entry-address :
    (id : ℕ) (f : SessionValueEntry → SessionValueEntry) (m : SessionTaskMap)
    → address_in id (change_entry id f m) ≡ address_in id m
unfolding address_in change_entry
change_entry-address id f m = ground arith

apply_cpu_and_gpu_votes-address :
    (c : Settings) (dead : ℕ → Bool) (id : ℕ) (t : ℤ) (s : PowerSessionManager)
    → address_in id (apply_cpu_and_gpu_votes c dead id t s).0.session_task_map
      ≡ address_in id s.session_task_map
unfolding apply_cpu_and_gpu_votes apply_uclamp
apply_cpu_and_gpu_votes-address c dead id t s =
    apply_to-address c dead id t s.session_task_map (find id s.session_task_map.sessions) refl

force_session_active-address :
    (c : Settings) (dead : ℕ → Bool) (now : ℤ) (id : ℕ) (a : Bool) (s : PowerSessionManager)
    → address_in id (force_session_active c dead now id a s).0.session_task_map
      ≡ address_in id s.session_task_map
unfolding force_session_active
force_session_active-address c dead now id a s = ground (arith, voted)
  where
    changed : SessionTaskMap
    changed =
        change_entry id (λ (v : SessionValueEntry). record v { is_active = a }) s.session_task_map

    voted :
        address_in id
          (apply_cpu_and_gpu_votes c dead id now
            (record s { session_task_map = changed })).0.session_task_map
        ≡ address_in id s.session_task_map
    voted =
        apply_cpu_and_gpu_votes-address c dead id now (record s { session_task_map = changed })
        ∙ change_entry-address id (λ (v : SessionValueEntry). record v { is_active = a })
            s.session_task_map

remove_at_fails :
    (c : Profile) (now : Now) (id : ℕ) (o : Outcome) (a : Option ℕ)
    → (remove_at c now id o a ≡ none) ↔ (a ≡ none)
unfolding remove_at
remove_at_fails c now id o none = (λ e. refl, λ e. refl)
remove_at_fails c now id o (some p) = (λ e. ground arith, λ e. ground arith)

-- Removing a session fails, by a read through a null pointer, just when the session is not there.
pub remove_power_session_fails :
    (c : Profile) (now : Now) (id : ℕ) (s : Manager)
    → (remove_power_session c now id s ≡ none) ↔ (address_of id s ≡ none)
unfolding remove_power_session force_active address_of address_in
remove_power_session_fails c now id s =
    subst (λ a. (remove_power_session c now id s ≡ none) ↔ (a ≡ none))
      (force_session_active-address c.settings now.dead now.steady id false s.votes_and_tasks)
      (remove_at_fails c now id (force_active c now id false s) _)
