-- ===== src/Perfmgr/PowerSessionManager/Watch.antt =====
-- The timeout events that wait in the queue, and how the methods of the manager keep them.
use mathlib.Core.Path.{subst}
use hardware_voltage_interfa.Base.{
  ℕ, ◌≡◌, ◌⊎◌, inl, inr, refl, sym, ap, Bool, true, false, none, some, List, [], ◌∷◌, ◌++◌, arith,
  Option-cases, Bool-cases,
}
use hardware_voltage_interfa.Base.Int.{ℤ, ◌+ℤ◌, ◌≤ℤ◌}
use hardware_voltage_interfa.Base.Dict.{find}
use hardware_voltage_interfa.Perfmgr.Votes.{Votes, vote_is_active, vote_timeout}
use hardware_voltage_interfa.Perfmgr.SessionTaskMap.{
  SessionTaskMap, ValEntry, SessionValueEntry, change_votes, votes_of, find_session, add_vote,
  add_gpu_vote,
}
use hardware_voltage_interfa.Perfmgr.PowerSessionManager.{
  EventSessionTimeout, Settings, PowerSessionManager, should_schedule_timeout, vote_set_cpu,
  vote_set_gpu, schedule_if, vote_event,
}
use hardware_voltage_interfa.Perfmgr.PowerSessionManager.Active.{
  LastsTo, IsActive, IsSound, at, elsewhere, add_cpu-LastsTo, add_gpu-LastsTo, change_votes-active,
  change_votes-IsSound,
}
use hardware_voltage_interfa.Perfmgr.PowerSessionManager.Kept.{
  KeepsVotes, KeepsVotes-refl, KeepsVotes-IsActive, KeepsVotes-IsSound, apply_uclamp-KeepsVotes,
}
use hardware_voltage_interfa.Perfmgr.PowerSessionManager.Threads.{Keeps}

-- Of the votes that `timely` names by session and vote: an event that is due at `due` comes no later
-- than the end `t` of the vote.
abbrev pub InTime : (ℕ → ℕ → Bool) → ℕ → ℕ → ℤ → ℤ → Type 0
InTime timely id k due t = (timely id k ≡ false) ⊎ (due ≤ℤ t)

-- An event for the vote of the session, which ends at `t`, waits in the queue.
unfoldable pub IsPending : (ℕ → ℕ → Bool) → ℕ → ℕ → ℤ → List (EventSessionTimeout × ℤ) → Type 0
IsPending timely id k t [] = ⊥
IsPending timely id k t ((e, due) ∷ q) =
    ((e.session_id ≡ id) × (e.vote_id ≡ k) × InTime timely id k due t) ⊎ IsPending timely id k t q

-- Every active vote waits for an event.
pub record IsWatched (timely : ℕ → ℕ → Bool) (s : PowerSessionManager) : Type 0 where
  pub sound : IsSound s.session_task_map
  pub watched :
      (id k : ℕ) (t : ℤ) → IsActive id k t s.session_task_map → IsPending timely id k t s.timeouts

module _ (timely : ℕ → ℕ → Bool) where
  -- A vote that ends later is waited for as well.
  pub IsPending_later :
      (id k : ℕ) (t u : ℤ) (q : List (EventSessionTimeout × ℤ))
      → InTime timely id k t u
      → IsPending timely id k t q
      → IsPending timely id k u q
  unfolding IsPending
  IsPending_later id k t u [] le waits = elim waits [ ]
  IsPending_later id k t u ((e, due) ∷ q) le (inl (one, two, in_time)) =
      inl (one, two, ground arith)
  IsPending_later id k t u ((e, due) ∷ q) le (inr rest) = inr (IsPending_later id k t u q le rest)

  -- Without the event `e` in the queue, the other votes are still waited for.
  pub IsPending-rest :
      (id k : ℕ) (u : ℤ) (before after : List (EventSessionTimeout × ℤ)) (e : EventSessionTimeout)
      (due : ℤ)
      → IsPending timely id k u (before ++ (e, due) ∷ after)
      → ((e.session_id ≡ id) × (e.vote_id ≡ k)) ⊎ IsPending timely id k u (before ++ after)
  unfolding IsPending
  IsPending-rest id k u [] after e due (inl (one, two, in_time)) = inl (one, two)
  IsPending-rest id k u [] after e due (inr later) = inr later
  IsPending-rest id k u ((d, t) ∷ before) after e due (inl here) = inr (inl here)
  IsPending-rest id k u ((d, t) ∷ before) after e due (inr later) =
      elim (IsPending-rest id k u before after e due later) [ inl x ↦ inl x | inr y ↦ inr (inr y) ]

  -- A method that lets the sessions keep their votes keeps the watch.
  pub kept-IsWatched :
      (m n : SessionTaskMap) (q : List (EventSessionTimeout × ℤ))
      → KeepsVotes m n
      → IsWatched timely (record { session_task_map = m; timeouts = q })
      → IsWatched timely (record { session_task_map = n; timeouts = q })
  kept-IsWatched m n q kept w = record {
    sound = KeepsVotes-IsSound m n kept w.sound;
    watched = λ id k t act. w.watched id k t (KeepsVotes-IsActive m n id k t kept act);
  }

  pub Keeps-IsWatched :
      (s t : PowerSessionManager) → Keeps s t → IsWatched timely s → IsWatched timely t
  Keeps-IsWatched s t kept w = record {
    sound = KeepsVotes-IsSound s.session_task_map t.session_task_map kept.map_kept w.sound;
    watched = λ id k u act. subst (IsPending timely id k u) (sym kept.same_timeouts) (
        w.watched id k u
          (KeepsVotes-IsActive s.session_task_map t.session_task_map id k u kept.map_kept act));
  }

  -- A change of votes that switches off, or lets a vote end later, keeps the watch.
  pub less-IsWatched :
      (j : ℕ) (f : Votes → Votes) (m : SessionTaskMap) (q : List (EventSessionTimeout × ℤ))
      → ((e : ValEntry) (k : ℕ) (t : ℤ)
          → find j m.sessions ≡ some e
          → LastsTo k t (f (votes_of m e))
          → (u : ℤ) × LastsTo k u (votes_of m e) × InTime timely j k u t)
      → IsWatched timely (record { session_task_map = m; timeouts = q })
      → IsWatched timely (record { session_task_map = change_votes j f m; timeouts = q })
  unfolding IsActive
  less-IsWatched j f m q less w = record {
    sound = change_votes-IsSound j f m w.sound;
    watched = λ id k t act.
        elim (change_votes-active j f m id k t w.sound act (find j m.sessions) refl) [
          | at same e found on ↦
              let (u, lasts, in_time) = less e k t found on in
              subst (λ i. IsPending timely i k t q) (sym same)
                (IsPending_later j k u t q in_time (w.watched j k u (e, found, lasts)))
          | elsewhere other before ↦ w.watched id k t before
        ];
  }

  -- An event that is added if the test says so.
  pub schedule-IsWatched :
      (b : Bool) (e : EventSessionTimeout) (due : ℤ) (s : PowerSessionManager)
      → IsSound s.session_task_map
      → ((id k : ℕ) (t : ℤ)
          → IsActive id k t s.session_task_map
          → IsPending timely id k t s.timeouts
            ⊎ ((b ≡ true) × (e.session_id ≡ id) × (e.vote_id ≡ k) × (due ≤ℤ t)))
      → IsWatched timely (schedule_if b e due s)
  unfolding IsPending
  schedule-IsWatched true e due s sound watched = record {
    sound = sound;
    watched = λ id k t act. elim (watched id k t act) [
      | inl there ↦ inr there
      | inr (yes_it, one, two, le) ↦ inl (one, two, inr le)
    ];
  }
  schedule-IsWatched false e due s sound watched = record {
    sound = sound;
    watched = λ id k t act. elim (watched id k t act) [
      | inl there ↦ there
      | inr (not_it, one, two, le) ↦ absurd (ground arith)
    ];
  }

pub find_session-some :
    (id : ℕ) (m : SessionTaskMap) (sv : SessionValueEntry)
    → find_session id m ≡ some sv
    → (e : ValEntry) × (find id m.sessions ≡ some e) × (m.entries e.val ≡ sv)
unfolding find_session
find_session-some id m sv h = elim (Option-cases (find id m.sessions)) [
  | inl e ↦ absurd (ground arith)
  | inr (e, found) ↦ (e, found, ground arith)
]

pub absent_idle :
    (m : SessionTaskMap) (id k : ℕ) (t : ℤ) → find_session id m ≡ none → ¬ IsActive id k t m
unfolding IsActive find_session
absent_idle m id k t h (g, found, on) = ground arith

pub off_idle :
    (m : SessionTaskMap) (id k : ℕ) (t : ℤ) (sv : SessionValueEntry)
    → find_session id m ≡ some sv
    → vote_is_active k (m.votes sv.votes) ≡ false
    → ¬ IsActive id k t m
unfolding IsActive LastsTo find_session
off_idle m id k t sv h idle (g, found, on) =
    let same : m.entries g.val ≡ sv = ground arith in
    let equal = ap (λ (x : SessionValueEntry). vote_is_active k (m.votes x.votes)) same in
    ground arith

-- Where no event is scheduled, the vote is active, and ends no later than the deadline.
unscheduled :
    (v : Votes) (vote : ℕ) (due : ℤ)
    → should_schedule_timeout v vote due ≡ false
    → LastsTo vote (vote_timeout vote v) v × (vote_timeout vote v ≤ℤ due)
unfolding should_schedule_timeout LastsTo
unscheduled v vote due h = ground arith

-- A vote that is set is waited for: by a new event, or by that of the vote it replaces.
pub voted-IsWatched :
    (timely : ℕ → ℕ → Bool) (j vote : ℕ) (start due : ℤ) (f : Votes → Votes) (m n : SessionTaskMap)
    (q : List (EventSessionTimeout × ℤ)) (sv : SessionValueEntry)
    → ((k : ℕ) (t : ℤ) (v : Votes) → LastsTo k t (f v) → LastsTo k t v ⊎ ((k ≡ vote) × (t ≡ due)))
    → find_session j m ≡ some sv
    → KeepsVotes (change_votes j f m) n
    → IsWatched timely (record { session_task_map = m; timeouts = q })
    → IsWatched timely (
        schedule_if
          (should_schedule_timeout (m.votes sv.votes) vote due)
          (vote_event start j vote)
          due
          (record { session_task_map = n; timeouts = q }))
unfolding IsActive
voted-IsWatched timely j vote start due f m n q sv other there kept w =
    let (e, found, same_entry) = find_session-some j m sv there in
    let same_votes : m.votes sv.votes ≡ votes_of m e =
      ap (λ (x : SessionValueEntry). m.votes x.votes) (sym same_entry) in
    schedule-IsWatched timely _ _ due (record { session_task_map = n; timeouts = q })
      (KeepsVotes-IsSound (change_votes j f m) n kept (change_votes-IsSound j f m w.sound))
      (λ id k t act.
        elim (change_votes-active j f m id k t w.sound
          (KeepsVotes-IsActive (change_votes j f m) n id k t kept act) (find j m.sessions) refl) [
            | elsewhere apart before ↦ inl (w.watched id k t before)
            | at same g there_too on ↦ elim (other k t (votes_of m g) on) [
              | inl old ↦ inl (
                  subst (λ i. IsPending timely i k t q) (sym same)
                    (w.watched j k t (g, there_too, old)))
              | inr (is_vote, is_due) ↦
                  elim (Bool-cases (should_schedule_timeout (m.votes sv.votes) vote due)) [
                    | inl scheduled ↦ inr (scheduled, sym same, sym is_vote, ground arith)
                    | inr left ↦
                        let (lasts, le) = unscheduled (m.votes sv.votes) vote due left in
                        let until = vote_timeout vote (m.votes sv.votes) in
                        let waits =
                          w.watched j vote until
                            (e, found, subst (LastsTo vote until) same_votes lasts) in
                        inl (
                          subst (λ i. IsPending timely i k t q) (sym same)
                            (subst (λ i. IsPending timely j i t q) (sym is_vote)
                              (IsPending_later timely j vote until t q (inr (ground arith)) waits)))
                  ]
            ]
          ])

module _ (timely : ℕ → ℕ → Bool) (c : Settings) (dead : ℕ → Bool) where
  pub vote_set_cpu-IsWatched :
      (s : PowerSessionManager) (id vote : ℕ) (low high start duration : ℤ)
      → IsWatched timely s
      → IsWatched timely (vote_set_cpu c dead id vote low high start duration s).0
  unfolding vote_set_cpu add_vote
  vote_set_cpu-IsWatched s id vote low high start duration w =
      elim (Option-cases (find_session id s.session_task_map)) [
        | inl e ↦ rw (e, vote_set_cpu) w
        | inr (sv, e) ↦
            let voted = add_vote id vote low high start duration s.session_task_map in
            rw (e, vote_set_cpu)
              (voted-IsWatched timely id vote start (start +ℤ duration) _ s.session_task_map _
                s.timeouts sv (λ k t v h. add_cpu-LastsTo vote k t _ v h) e
                (apply_uclamp-KeepsVotes c dead id start voted
                  (change_votes-IsSound id _ s.session_task_map w.sound).distinct)
                w)
      ]

  pub vote_set_gpu-IsWatched :
      (s : PowerSessionManager) (id vote : ℕ) (capacity start duration : ℤ)
      → IsWatched timely s
      → IsWatched timely (vote_set_gpu c id vote capacity start duration s).0
  unfolding vote_set_gpu add_gpu_vote
  vote_set_gpu-IsWatched s id vote capacity start duration w =
      elim (Option-cases (find_session id s.session_task_map)) [
        | inl e ↦ rw (e, vote_set_gpu) w
        | inr (sv, e) ↦
            let voted = add_gpu_vote id vote capacity start duration s.session_task_map in
            rw (e, vote_set_gpu)
              (voted-IsWatched timely id vote start (start +ℤ duration) _ s.session_task_map _
                s.timeouts sv (λ k t v h. add_gpu-LastsTo vote k t _ v h) e
                (KeepsVotes-refl voted
                  (change_votes-IsSound id _ s.session_task_map w.sound).distinct)
                w)
      ]
