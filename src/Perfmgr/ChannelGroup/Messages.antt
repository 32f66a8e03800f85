-- ===== src/Perfmgr/ChannelGroup/Messages.antt =====
-- The calls of sessions against the messages of a channel.
use hardware_voltage_interfa.Base.{
  ℕ, zero, suc, ◌≤◌, ◌≡◌, refl, sym, ap, ◌∙◌, Bool, true, false, if◌then◌else◌, List, [], ◌∷◌, ◌++◌,
  map, length, arith, Bool-cases, inl, inr,
}
use mathlib.Core.List.{append_assoc}
use hardware_voltage_interfa.Base.Int.{ℤ}
use hardware_voltage_interfa.Perfmgr.ChannelGroup.{
  ChannelMessage, Contents, hint, target_duration, work_duration, mode, invalid, WorkDuration,
  SessionCall, send_hint, update_target_work_duration, report_actual_work_duration, set_mode,
  durations_of, take_duration, report_durations, hand_over, turn, dispatch,
}

-- What a session is told, one thing at a time.
pub data Event : Type 0 where
  hinted : ℕ → Event
  targeted : ℤ → Event
  worked : WorkDuration → Event
  switched : ℕ → Bool → Event

abbrev pub events_of_call : SessionCall → List (ℕ × Event)
events_of_call (send_hint id h) = (id, hinted h) ∷ []
events_of_call (update_target_work_duration id t) = (id, targeted t) ∷ []
events_of_call (report_actual_work_duration id ds) = map (λ d. (id, worked d)) ds
events_of_call (set_mode id i e) = (id, switched i e) ∷ []

unfoldable pub events_of_calls : List SessionCall → List (ℕ × Event)
events_of_calls [] = []
events_of_calls (c ∷ cs) = events_of_call c ++ events_of_calls cs

abbrev pub events_in : ℕ → ℤ → Contents → List (ℕ × Event)
events_in id stamp (hint h) = (id, hinted h) ∷ []
events_in id stamp (target_duration t) = (id, targeted t) ∷ []
events_in id stamp (work_duration total cpu gpu start) =
    (
      id,
      worked (record {
        time_stamp_nanos = stamp;
        duration_nanos = total;
        cpu_duration_nanos = cpu;
        gpu_duration_nanos = gpu;
        work_period_start_timestamp_nanos = start;
      }),
    )
    ∷ []
events_in id stamp (mode i e) = (id, switched i e) ∷ []
events_in id stamp invalid = []

-- The messages to sessions that exist, in order.
unfoldable pub events_of : (ℕ → Bool) → List ChannelMessage → List (ℕ × Event)
events_of alive [] = []
events_of alive (m ∷ ms) =
    let rest = events_of alive ms in
    if alive m.session_id
    then events_in m.session_id m.time_stamp_nanos m.contents ++ rest
    else rest

-- Durations of one session and the messages behind them are the messages `ms`.
pub record IsSplit (alive : ℕ → Bool) (id : ℕ) (ms : List ChannelMessage)
    (t : List WorkDuration × List ChannelMessage) : Type 0 where
  pub all : map (λ d. (id, worked d)) t.0 ++ events_of alive t.1 ≡ events_of alive ms
  pub shorter : length t.1 ≤ length ms

take_duration-IsSplit :
    (alive : ℕ → Bool) (id : ℕ) (m : ChannelMessage) (ms : List ChannelMessage)
    (behind : List WorkDuration × List ChannelMessage) (c : Contents)
    → alive id ≡ true
    → m.contents ≡ c
    → IsSplit alive id ms behind
    → IsSplit alive id (m ∷ ms) (take_duration id m ms behind c)
unfolding events_of
take_duration-IsSplit alive id m ms behind (hint h) a e b = record {
  all = refl;
  shorter = omega arith;
}
take_duration-IsSplit alive id m ms behind (target_duration t) a e b = record {
  all = refl;
  shorter = omega arith;
}
take_duration-IsSplit alive id m ms behind (mode i on) a e b = record {
  all = refl;
  shorter = omega arith;
}
take_duration-IsSplit alive id m ms behind invalid a e b = record {
  all = refl;
  shorter = omega arith;
}
take_duration-IsSplit alive id m ms behind (work_duration total cpu gpu start) a e b =
    let h = b.all in let l = b.shorter in ground arith

durations_of-IsSplit :
    (alive : ℕ → Bool) (id : ℕ) (ms : List ChannelMessage)
    → alive id ≡ true
    → IsSplit alive id ms (durations_of id ms)
unfolding durations_of
durations_of-IsSplit alive id [] a = record { all = refl; shorter = omega arith }
durations_of-IsSplit alive id (m ∷ ms) a =
    take_duration-IsSplit alive id m ms (durations_of id ms) m.contents a refl
      (durations_of-IsSplit alive id ms a)

-- Calls and the messages left are the messages `m ∷ ms`.
pub record IsTurn (alive : ℕ → Bool) (m : ChannelMessage) (ms : List ChannelMessage)
    (t : List SessionCall × List ChannelMessage) : Type 0 where
  pub all : events_of_calls t.0 ++ events_of alive t.1 ≡ events_of alive (m ∷ ms)
  pub shorter : length t.1 ≤ length ms

reported-IsTurn :
    (alive : ℕ → Bool) (m : ChannelMessage) (ms : List ChannelMessage)
    (behind : List WorkDuration × List ChannelMessage) (c : Contents) (total cpu gpu start : ℤ)
    → alive m.session_id ≡ true
    → m.contents ≡ work_duration total cpu gpu start
    → c ≡ work_duration total cpu gpu start
    → IsSplit alive m.session_id ms behind
    → let t = take_duration m.session_id m ms behind c in
      IsTurn alive m ms (report_durations m.session_id t.0 t.1 ms)
unfolding events_of events_of_calls
reported-IsTurn alive m ms behind c total cpu gpu start a e f b =
    let h = b.all in
    let l = b.shorter in
    let told : List (ℕ × Event) = map (λ d. (m.session_id, worked d)) behind.0 in
    let r : told ++ [] ++ events_of alive behind.1 ≡ events_of alive ms =
      append_assoc told [] (events_of alive behind.1) ∙ h in
    ground arith

hand_over-IsTurn :
    (alive : ℕ → Bool) (m : ChannelMessage) (ms : List ChannelMessage) (c : Contents)
    → alive m.session_id ≡ true
    → m.contents ≡ c
    → IsTurn alive m ms (hand_over m ms c)
unfolding hand_over events_of events_of_calls durations_of
hand_over-IsTurn alive m ms (hint h) a e = ground arith
hand_over-IsTurn alive m ms (target_duration t) a e = ground arith
hand_over-IsTurn alive m ms (mode i on) a e = ground arith
hand_over-IsTurn alive m ms invalid a e = ground arith
hand_over-IsTurn alive m ms (work_duration total cpu gpu start) a e =
    let b = durations_of-IsSplit alive m.session_id ms a in
    reported-IsTurn alive m ms (durations_of m.session_id ms) m.contents total cpu gpu start a e e b

turn-IsTurn :
    (alive : ℕ → Bool) (m : ChannelMessage) (ms : List ChannelMessage)
    → IsTurn alive m ms (turn alive m ms)
unfolding turn events_of events_of_calls
turn-IsTurn alive m ms = elim (Bool-cases (alive m.session_id)) [
  | inl a ↦ rw a (hand_over-IsTurn alive m ms m.contents a refl)
  | inr a ↦ rw a (record { all = skipped a; shorter = omega arith })
]
  where
    skipped : alive m.session_id ≡ false → events_of alive ms ≡ events_of alive (m ∷ ms)
    skipped a = ground arith

events_of_calls-append :
    (xs ys : List SessionCall)
    → events_of_calls (xs ++ ys) ≡ events_of_calls xs ++ events_of_calls ys
unfolding events_of_calls
events_of_calls-append [] ys = refl
events_of_calls-append (x ∷ xs) ys =
    ap (λ l. events_of_call x ++ l) (events_of_calls-append xs ys)
    ∙ sym (append_assoc (events_of_call x) (events_of_calls xs) (events_of_calls ys))

-- With fuel for every message, the thread tells each session that exists, in order and once each,
-- all that the messages say, and nothing else: work durations are only put together.
pub dispatch_lem :
    (alive : ℕ → Bool) (n : ℕ) (ms : List ChannelMessage)
    → length ms ≤ n
    → events_of_calls (dispatch alive n ms) ≡ events_of alive ms
unfolding dispatch events_of_calls events_of
dispatch_lem alive zero [] h = refl
dispatch_lem alive zero (m ∷ ms) h = absurd (omega arith)
dispatch_lem alive (suc n) [] h = refl
dispatch_lem alive (suc n) (m ∷ ms) h =
    let (calls, rest) = turn alive m ms in
    let t = turn-IsTurn alive m ms in
    let l = t.shorter in
    events_of_calls-append calls (dispatch alive n rest)
    ∙ ap (λ l. events_of_calls calls ++ l) (dispatch_lem alive n rest (omega arith))
    ∙ t.all
