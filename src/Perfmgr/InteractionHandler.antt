-- ===== src/Perfmgr/InteractionHandler.antt =====
-- power-libperfmgr/aidl/InteractionHandler.h and InteractionHandler.cpp. A method returns the new
-- state, and its calls of the hint manager and of the event descriptor in order. The properties that
-- are read once at the start are the parameter `Settings`.
pub mod Duration
pub mod Hints
mod Tests
use hardware_voltage_interfa.Base.{
  ℕ, Bool, true, false, not, ◌&&◌, ◌||◌, List, [], ◌∷◌, if◌then◌else◌, ltb, leb,
}
use hardware_voltage_interfa.Base.Int.{
  ℤ, pos, ◌+ℤ◌, ◌-ℤ◌, ◌*ℤ◌, leb_ℤ, ltb_ℤ, div_ℤ, to_u32, to_i32, to_u64,
}

pub data InteractionState : Type 0 where
  uninitialized idle interaction waiting : InteractionState

pub record Timespec : Type 0 where
  pub tv_sec : ℤ
  pub tv_nsec : ℤ

pub record Settings : Type 0 where
  pub display_idle_support : Bool
  pub min_duration_ms : ℕ
  pub max_duration_ms : ℕ
  pub duration_offset_ms : ℕ

-- What the thread of the handler does: there is none, it is about to look at the state, or it waits
-- for the display outside the lock.
pub data Thread : Type 0 where
  absent looks waits : Thread

pub record InteractionHandler : Type 0 where
  pub state : InteractionState
  pub duration_ms : ℤ
  pub last_timespec : Timespec
  pub thread : Thread

pub data Call : Type 0 where
  perf_lock perf_rel abort_wait clear_events close_idle close_event : Call
  do_hint : ℤ → Call

abbrev pub Effect : Type 0
Effect = InteractionHandler × List Call

abbrev pub is_uninitialized : InteractionState → Bool
is_uninitialized uninitialized = true
is_uninitialized idle = false
is_uninitialized interaction = false
is_uninitialized waiting = false

abbrev pub is_idle : InteractionState → Bool
is_idle idle = true
is_idle uninitialized = false
is_idle interaction = false
is_idle waiting = false

unfoldable pub calc_timespec_diff_ms : Timespec → Timespec → ℕ
calc_timespec_diff_ms start end = to_u64 (
    pos (to_u64 ((end.tv_sec -ℤ start.tv_sec) *ℤ pos 1000))
    +ℤ div_ℤ (end.tv_nsec -ℤ start.tv_nsec) 1000000)

-- The constructor; the memory of `mLastTimespec` is not set.
unfoldable pub new : Timespec → InteractionHandler
new memory = record {
  state = uninitialized;
  duration_ms = pos 0;
  last_timespec = memory;
  thread = absent;
}

-- `Init`, told whether each of the two descriptors opens.
unfoldable pub init : Bool → Bool → InteractionHandler → InteractionHandler × List Call × Bool
init idle_opens event_opens h =
    if not (is_uninitialized h.state)
    then (h, [], true)
    else if not idle_opens
    then (h, [], false)
    else if not event_opens
    then (h, close_idle ∷ [], false)
    else (record h { state = idle; thread = looks }, [], true)

-- `Exit` up to `join`; `exit_joined` is the rest, once the thread has ended.
unfoldable pub exit : InteractionHandler → Effect
exit h =
    if is_uninitialized h.state
    then (h, [])
    else (record h { state = uninitialized }, abort_wait ∷ [])

abbrev pub exit_joined : InteractionHandler → Effect
exit_joined h = (h, close_event ∷ close_idle ∷ [])

-- `int + uint32_t` is computed modulo 2^32, and compared as `uint32_t`.
unfoldable pub final_duration : Settings → ℤ → ℤ
final_duration k duration =
    let input = to_i32 (duration +ℤ pos k.duration_offset_ms) in
    if ltb k.max_duration_ms (to_u32 input)
    then to_i32 (pos k.max_duration_ms)
    else if ltb k.min_duration_ms (to_u32 input)
    then input
    else to_i32 (pos k.min_duration_ms)

-- Does the hint before cover this one?
unfoldable pub is_covered : ℤ → Timespec → InteractionHandler → Bool
is_covered final now h =
    not (is_idle h.state)
    && leb_ℤ final h.duration_ms
    && leb (calc_timespec_diff_ms h.last_timespec now) (to_u64 (h.duration_ms -ℤ final))

abbrev pub acquire_calls : InteractionState → List Call
acquire_calls waiting = abort_wait ∷ []
acquire_calls idle = perf_lock ∷ []
acquire_calls interaction = []
acquire_calls uninitialized = []

unfoldable pub acquire : Settings → ℤ → Timespec → InteractionHandler → Effect
acquire k duration now h =
    let final = final_duration k duration in
    if not k.display_idle_support || is_uninitialized h.state
    then (h, do_hint final ∷ [])
    else if is_covered final now h
    then (h, [])
    else (
      record h { state = interaction; duration_ms = final; last_timespec = now },
      acquire_calls h.state,
    )

abbrev pub release_in : InteractionState → InteractionHandler → Effect
release_in waiting h = (record h { state = idle }, perf_rel ∷ [])
release_in uninitialized h = (h, clear_events ∷ [])
release_in idle h = (h, clear_events ∷ [])
release_in interaction h = (h, clear_events ∷ [])

unfoldable pub release : InteractionHandler → Effect
release h = release_in h.state h

-- One turn of `Routine` under the lock, where the condition lets the thread pass: it ends, or it
-- begins to wait.
abbrev pub look_in : InteractionState → InteractionHandler → InteractionHandler
look_in uninitialized h = record h { thread = absent }
look_in idle h = h
look_in interaction h = record h { state = waiting; thread = waits }
look_in waiting h = record h { state = waiting; thread = waits }

unfoldable pub look : InteractionHandler → InteractionHandler
look h = look_in h.state h

-- The thread comes back from `WaitForIdle` and calls `Release`.
unfoldable pub come_back : InteractionHandler → Effect
unfolding release
come_back h = let (g, calls) = release h in (record g { thread = looks }, calls)
