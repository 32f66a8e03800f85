-- ===== src/Perfmgr/PowerSessionManager/Events.antt =====
-- The timeout events of the manager: the event that fires, sessions that are added, and votes that get
-- another duration.
use mathlib.Core.Path.{subst}
use hardware_voltage_interfa.Base.{
  ℕ, ◌≡◌, ◌⊎◌, inl, inr, refl, sym, ap, ◌∙◌, Bool, true, Option, none, some, List, ◌∷◌, ◌++◌, ◌==◌,
  Option-cases, Bool-cases, ==_iff, arith,
}
use hardware_voltage_interfa.Base.Int.{ℤ, leb_ℤ}
use hardware_voltage_interfa.Base.Dict.{find}
use hardware_voltage_interfa.Perfmgr.Votes.{update_duration, vote_is_active, vote_timeout}
use hardware_voltage_interfa.Perfmgr.SessionTaskMap.{
  SessionTaskMap, SessionValueEntry, ValEntry, change_votes, votes_of, find_session,
}
use hardware_voltage_interfa.Perfmgr.PowerSessionManager.{
  EventSessionTimeout, Settings, PowerSessionManager, update_target_work_duration, handle_event,
  apply_cpu_and_gpu_votes, off, change_map,
}
use hardware_voltage_interfa.Perfmgr.PowerSessionManager.Active.{
  LastsTo, IsActive, at, elsewhere, update_duration-active, update_duration-timeout, off-LastsTo,
  change_votes-active, change_votes-IsSound,
}
use hardware_voltage_interfa.Perfmgr.PowerSessionManager.Kept.{apply_uclamp-KeepsVotes}
use hardware_voltage_interfa.Perfmgr.PowerSessionManager.Sessions.{Profile, Now, Manager}
use hardware_voltage_interfa.Perfmgr.PowerSessionManager.Lifetime.{
  Descriptor, add_entry, add_power_session,
}
use hardware_voltage_interfa.Perfmgr.PowerSessionManager.Managed.{
  AreKept, AreSound, set_threads-AreKept,
}
use hardware_voltage_interfa.Perfmgr.PowerSessionManager.Added.{
  add_entry-IsActive, add_entry-IsSound,
}
use hardware_voltage_interfa.Perfmgr.PowerSessionManager.Watch.{
  InTime, IsPending, IsWatched, IsPending-rest, kept-IsWatched, Keeps-IsWatched, less-IsWatched,
  schedule-IsWatched, absent_idle, off_idle,
}

-- When an active vote ends.
active_until :
    (m : SessionTaskMap) (id k : ℕ) (t : ℤ) (sv : SessionValueEntry)
    → find_session id m ≡ some sv
    → IsActive id k t m
    → vote_timeout k (m.votes sv.votes) ≡ t
unfolding IsActive LastsTo find_session
active_until m id k t sv h (g, found, on) =
    let same : m.entries g.val ≡ sv = ground arith in
    let equal = ap (λ (x : SessionValueEntry). vote_timeout k (m.votes x.votes)) same in
    ground arith

module _ (timely : ℕ → ℕ → Bool) where
  -- The event is taken from the queue and the method keeps or adds what is needed.
  module _ (c : Settings) (dead : ℕ → Bool) (m : SessionTaskMap)
      (before after : List (EventSessionTimeout × ℤ)) (e : EventSessionTimeout) (due now : ℤ)
      (w : IsWatched timely
        (record { session_task_map = m; timeouts = before ++ (e, due) ∷ after })) where
    rest :
        (id k : ℕ) (t : ℤ)
        → IsActive id k t m
        → ((e.session_id ≡ id) × (e.vote_id ≡ k)) ⊎ IsPending timely id k t (before ++ after)
    rest id k t act = IsPending-rest timely id k t before after e due (w.watched id k t act)

    -- The active vote that waited for the event is that of the event.
    own :
        (id k : ℕ) (t : ℤ)
        → e.session_id ≡ id
        → e.vote_id ≡ k
        → IsActive id k t m
        → IsActive e.session_id e.vote_id t m
    own id k t one two act =
        subst (λ i. IsActive i e.vote_id t m) (sym one)
          (subst (λ i. IsActive id i t m) (sym two) act)

    -- No active vote waited for the event.
    spare-IsWatched :
        ((t : ℤ) → ¬ IsActive e.session_id e.vote_id t m)
        → IsWatched timely (record { session_task_map = m; timeouts = before ++ after })
    spare-IsWatched idle = record {
      sound = w.sound;
      watched = λ id k t act. elim (rest id k t act) [
        | inr there ↦ there
        | inl (one, two) ↦ absurd (idle t (own id k t one two act))
      ];
    }

    off-IsWatched : IsWatched timely (record {
      session_task_map = change_votes e.session_id (off e.vote_id) m;
      timeouts = before ++ after;
    })
    unfolding IsActive
    off-IsWatched = record {
      sound = change_votes-IsSound e.session_id (off e.vote_id) m w.sound;
      watched = λ id k t act.
          elim (change_votes-active e.session_id (off e.vote_id) m id k t w.sound act
            (find e.session_id m.sessions) refl) [
              | elsewhere other there ↦ elim (rest id k t there) [
                | inr later ↦ later
                | inl (one, two) ↦ absurd (other (sym one))
              ]
              | at same g found on ↦
                  let was = off-LastsTo e.vote_id k t (votes_of m g) on in
                  elim (rest id k t
                    (g, subst (λ i. find i m.sessions ≡ some g) (sym same) found, was.0)) [
                      | inr later ↦ later
                      | inl (one, two) ↦ absurd (was.1 (sym two))
                    ]
            ];
    }

    later-IsWatched :
        (sv : SessionValueEntry)
        → find_session e.session_id m ≡ some sv
        → IsWatched timely (record {
          session_task_map = m;
          timeouts = (e, vote_timeout e.vote_id (m.votes sv.votes)) ∷ (before ++ after);
        })
    later-IsWatched sv there =
        schedule-IsWatched timely true e (vote_timeout e.vote_id (m.votes sv.votes))
          (record { session_task_map = m; timeouts = before ++ after }) w.sound
          (λ id k t act. elim (rest id k t act) [
            | inl (one, two) ↦
                let ends =
                  active_until m e.session_id e.vote_id t sv there (own id k t one two act) in
                inr (refl, one, two, ground arith)
            | inr y ↦ inl y
          ])

    pub handle_event-IsWatched :
        IsWatched timely
          (handle_event c dead now e
            (record { session_task_map = m; timeouts = before ++ after })).0
    unfolding handle_event apply_cpu_and_gpu_votes
    handle_event-IsWatched = elim (Option-cases (find_session e.session_id m)) [
      | inl none_there ↦
          rw (none_there, handle_event)
            (spare-IsWatched (λ t. absent_idle m e.session_id e.vote_id t none_there))
      | inr (sv, there) ↦ elim (Bool-cases (vote_is_active e.vote_id (m.votes sv.votes))) [
        | inr idle ↦
            rw (there, idle, handle_event)
              (spare-IsWatched (λ t. off_idle m e.session_id e.vote_id t sv there idle))
        | inl active ↦ elim (Bool-cases (leb_ℤ (vote_timeout e.vote_id (m.votes sv.votes)) now)) [
          | inl over ↦
              rw (there, active, over, handle_event)
                (kept-IsWatched timely _ _ (before ++ after)
                  (apply_uclamp-KeepsVotes c dead e.session_id now _ off-IsWatched.sound.distinct)
                  off-IsWatched)
          | inr later ↦ rw (there, active, later, handle_event) (later-IsWatched sv there)
        ]
      ]
    ]

  pub added-IsWatched :
      (s : Manager) (c : Profile) (now : Now) (d : Option Descriptor) (metrics : Bool)
      (tids : List ℕ)
      → IsWatched timely s.votes_and_tasks
      → IsWatched timely (add_power_session c now d metrics tids s).0.votes_and_tasks
  unfolding add_power_session AreKept AreSound
  added-IsWatched s c now none metrics tids w = w
  added-IsWatched s c now (some d) metrics tids w =
      let entered : IsWatched timely (change_map (add_entry c now d) s.votes_and_tasks) = record {
        sound = add_entry-IsSound c now d s.votes_and_tasks.session_task_map w.sound;
        watched = λ id k t act.
            w.watched id k t
              (add_entry-IsActive c now d s.votes_and_tasks.session_task_map w.sound id k t act);
      } in
      Keeps-IsWatched timely _ _ (set_threads-AreKept c now d.session_id tids _ entered.sound)
        entered

  pub retargeted-IsWatched :
      (s : PowerSessionManager) (id vote : ℕ) (duration : ℤ)
      → ((e : ValEntry)
          → find id s.session_task_map.sessions ≡ some e
          → InTime timely id vote
              (vote_timeout vote (votes_of s.session_task_map e))
              (vote_timeout vote (update_duration vote duration (votes_of s.session_task_map e))))
      → IsWatched timely s
      → IsWatched timely (update_target_work_duration id vote duration s)
  unfolding update_target_work_duration LastsTo
  retargeted-IsWatched s id vote duration longer w =
      less-IsWatched timely id (update_duration vote duration) s.session_task_map s.timeouts
        (λ e k t found on.
          let v = votes_of s.session_task_map e in
          let active = sym (update_duration-active vote k duration v) ∙ on.0 in
          elim (Bool-cases (k == vote)) [
            | inl same ↦
                let eq = (==_iff k vote).0 same in
                (
                  vote_timeout k v,
                  (active, refl),
                  subst (InTime timely id k (vote_timeout k v)) on.1 (
                      subst
                        (λ i.
                          InTime timely id i (vote_timeout i v)
                            (vote_timeout i (update_duration vote duration v)))
                        (sym eq) (longer e found)),
                )
            | inr other ↦ (
              t,
              (
                active,
                sym (
                      update_duration-timeout vote k duration v
                        (λ (eq : k ≡ vote). absurd (ground (arith, ==_iff k vote))))
                    ∙ on.1,
              ),
              inr (omega arith),
            )
          ])
        w
