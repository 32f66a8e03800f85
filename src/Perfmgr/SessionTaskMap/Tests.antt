-- ===== src/Perfmgr/SessionTaskMap/Tests.antt =====
-- The map on a short history of calls.
use hardware_voltage_interfa.Base.{ℕ, ◌≡◌, refl, true, false, some, List, [], ◌∷◌}
use hardware_voltage_interfa.Base.Int.{pos}
use hardware_voltage_interfa.Base.Dict.{find, assign, erase}
use hardware_voltage_interfa.Perfmgr.Votes.{no_votes}
use hardware_voltage_interfa.Perfmgr.SessionTaskMap.{
  SessionTaskMap, SessionValueEntry, ValEntry, add, remove, replace, link, link_all, unlink,
  unlink_all, get_session_ids, get_task_ids, find_session, change_votes, add_vote,
}
use hardware_voltage_interfa.Perfmgr.SessionTaskMap.Links.{count}
use hardware_voltage_interfa.Perfmgr.SessionTaskMap.Invariant.{Inv, IsExact}
use hardware_voltage_interfa.Perfmgr.SessionTaskMap.Operations.{empty_map}
use hardware_voltage_interfa.Perfmgr.SessionTaskMap.Replace.{IsReplaced, replace-IsReplaced}
use hardware_voltage_interfa.Perfmgr.SessionTaskMap.Queries.{count-get_session_ids}
use hardware_voltage_interfa.Perfmgr.SessionTaskMap.History.{
  Op, adds, adds_vote, step, run, run-Inv, run-IsExact,
}

abbrev session : ℕ → SessionValueEntry
session votes = record {
  session_id = 0;
  id_string = [];
  is_active = true;
  is_app_session = true;
  votes = votes;
  is_power_efficient = false;
}

abbrev start : SessionTaskMap
start = empty_map session (λ p. no_votes)

-- Two sessions share task 11; the second has it twice.
abbrev history : List Op
history =
    adds 7 (session 0) (10 ∷ 11 ∷ [])
    ∷ adds 8 (session 1) (11 ∷ 11 ∷ [])
    ∷ adds_vote 7 0 (pos 100) (pos 600) (pos 5) (pos 10)
    ∷ []

abbrev linked_map : SessionTaskMap
linked_map = run history start

ids_of_11 : get_session_ids 11 linked_map ≡ 7 ∷ 8 ∷ 8 ∷ []
unfolding run step add link_all link find assign get_session_ids add_vote change_votes
ids_of_11 = refl

removed_ids : get_session_ids 11 (remove 8 linked_map).0 ≡ 7 ∷ []
unfolding run step add link_all link find assign erase get_session_ids remove unlink_all unlink
    add_vote change_votes
removed_ids = refl

run-Inv_example : Inv linked_map
run-Inv_example = run-Inv history session (λ p. no_votes)

run-IsExact_example : IsExact linked_map
run-IsExact_example = run-IsExact history session (λ p. no_votes) tt

count-get_session_ids_example :
    count 8 (get_session_ids 11 linked_map) ≡ count 11 (get_task_ids 8 linked_map)
count-get_session_ids_example =
    count-get_session_ids 8 11 linked_map (run-Inv history session (λ p. no_votes))
      (run-IsExact history session (λ p. no_votes) tt)

abbrev owner : ValEntry
owner = record { val = 1; linked_tasks = 11 ∷ 11 ∷ [] }

replace-IsReplaced_example :
    (n : SessionTaskMap) × (added : List ℕ) × (removed : List ℕ) × (replace 7
        (11 ∷ 12 ∷ [])
        linked_map
      ≡ some (n, added, removed))
    × IsReplaced 7 (11 ∷ 12 ∷ []) linked_map n added removed
unfolding run step add find assign add_vote change_votes find_session
replace-IsReplaced_example =
    replace-IsReplaced 7 (11 ∷ 12 ∷ []) linked_map (run-Inv history session (λ p. no_votes))
      (λ e. cc)
