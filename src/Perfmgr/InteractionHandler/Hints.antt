-- ===== src/Perfmgr/InteractionHandler/Hints.antt =====
-- The hints that a handler gives and takes back, with its thread.
use hardware_voltage_interfa.Base.{
  ℕ, ◌+◌, ◌≡◌, ◌≢◌, refl, Bool, true, false, List, [], ◌∷◌, ◌++◌, arith,
}
use hardware_voltage_interfa.Base.Int.{ℤ}
use hardware_voltage_interfa.Perfmgr.InteractionHandler.{
  InteractionHandler, InteractionState, uninitialized, idle, interaction, waiting, Thread, absent,
  looks, waits, Settings, Timespec, Call, perf_lock, perf_rel, new, init, exit, exit_joined,
  acquire, look, come_back, release,
}

abbrev pub is_lock : Call → ℕ
is_lock perf_lock = 1
is_lock _ = 0

abbrev pub is_rel : Call → ℕ
is_rel perf_rel = 1
is_rel _ = 0

unfoldable pub locks : List Call → ℕ
locks [] = 0
locks (x ∷ xs) = is_lock x + locks xs

unfoldable pub rels : List Call → ℕ
rels [] = 0
rels (x ∷ xs) = is_rel x + rels xs

abbrev pub busy : InteractionState → ℕ
busy interaction = 1
busy waiting = 1
busy idle = 0
busy uninitialized = 0

-- Handlers that calls, in any order, and turns of the thread lead to, with all calls made, the last
-- first, and the number of `Exit`s in the middle of an interaction. `Exit` is two steps, with others
-- between them: a `joins` follows once the thread has ended. An `Init` between the two replaces the
-- thread that is not joined yet: there C++ ends the process, so that what follows it here is no
-- longer a run of the program.
pub data IsReachable (k : Settings) : InteractionHandler → List Call → ℕ → Type 0 where
  created : (memory : Timespec) → IsReachable k (new memory) [] 0
  inits :
      {h : InteractionHandler} {calls : List Call} {n : ℕ} (idle_opens event_opens : Bool)
      → IsReachable k h calls n
      → IsReachable k
          (init idle_opens event_opens h).0
          ((init idle_opens event_opens h).1 ++ calls)
          n
  exits :
      {h : InteractionHandler} {calls : List Call} {n : ℕ}
      → IsReachable k h calls n
      → IsReachable k (exit h).0 ((exit h).1 ++ calls) (busy h.state + n)
  joins :
      {h : InteractionHandler} {calls : List Call} {n : ℕ}
      → h.thread ≡ absent
      → IsReachable k h calls n
      → IsReachable k (exit_joined h).0 ((exit_joined h).1 ++ calls) n
  acquires :
      {h : InteractionHandler} {calls : List Call} {n : ℕ} (duration : ℤ) (now : Timespec)
      → IsReachable k h calls n
      → IsReachable k (acquire k duration now h).0 ((acquire k duration now h).1 ++ calls) n
  turns :
      {h : InteractionHandler} {calls : List Call} {n : ℕ}
      → h.thread ≡ looks
      → h.state ≢ idle
      → IsReachable k h calls n
      → IsReachable k (look h) calls n
  comes_back :
      {h : InteractionHandler} {calls : List Call} {n : ℕ}
      → h.thread ≡ waits
      → IsReachable k h calls n
      → IsReachable k (come_back h).0 ((come_back h).1 ++ calls) n

abbrev pub fits : InteractionState → Thread → Bool
fits uninitialized t = true
fits idle looks = true
fits idle absent = false
fits idle waits = false
fits interaction looks = true
fits interaction waits = true
fits interaction absent = false
fits waiting waits = true
fits waiting looks = false
fits waiting absent = false

-- The hints without a timeout that were not taken back, and the thread that will take back the one in force.
pub record IsBalanced (h : InteractionHandler) (calls : List Call) (n : ℕ) : Type 0 where
  pub hints : locks calls ≡ rels calls + busy h.state + n
  pub thread_fits : fits h.state h.thread ≡ true

init-IsBalanced :
    (h : InteractionHandler) (calls : List Call) (n : ℕ) (idle_opens event_opens : Bool)
    → IsBalanced h calls n
    → IsBalanced (init idle_opens event_opens h).0 ((init idle_opens event_opens h).1 ++ calls) n
unfolding init locks rels
init-IsBalanced h calls n idle_opens event_opens b = ground arith

exit-IsBalanced :
    (h : InteractionHandler) (calls : List Call) (n : ℕ)
    → IsBalanced h calls n
    → IsBalanced (exit h).0 ((exit h).1 ++ calls) (busy h.state + n)
unfolding exit locks rels
exit-IsBalanced h calls n b = ground arith

exit_joined-IsBalanced :
    (h : InteractionHandler) (calls : List Call) (n : ℕ)
    → IsBalanced h calls n
    → IsBalanced (exit_joined h).0 ((exit_joined h).1 ++ calls) n
unfolding locks rels
exit_joined-IsBalanced h calls n b = ground arith

acquire-IsBalanced :
    (k : Settings) (duration : ℤ) (now : Timespec) (h : InteractionHandler) (calls : List Call)
    (n : ℕ)
    → IsBalanced h calls n
    → IsBalanced (acquire k duration now h).0 ((acquire k duration now h).1 ++ calls) n
unfolding acquire locks rels
acquire-IsBalanced k duration now h calls n b = ground arith

look-IsBalanced :
    (h : InteractionHandler) (calls : List Call) (n : ℕ)
    → h.thread ≡ looks
    → h.state ≢ idle
    → IsBalanced h calls n
    → IsBalanced (look h) calls n
unfolding look
look-IsBalanced h calls n t i b = ground arith

come_back-IsBalanced :
    (h : InteractionHandler) (calls : List Call) (n : ℕ)
    → h.thread ≡ waits
    → IsBalanced h calls n
    → IsBalanced (come_back h).0 ((come_back h).1 ++ calls) n
unfolding come_back release locks rels
come_back-IsBalanced h calls n t b = ground arith

-- In every run of a handler the INTERACTION hints given without a timeout are as many as those taken
-- back, one if an interaction is in force, and one for each `Exit` in the middle of an interaction;
-- and while an interaction is in force, the thread is there to end it. The hints that `Acquire` gives
-- with a timeout, which end by themselves, are not counted.
pub IsReachable-IsBalanced :
    (k : Settings) (h : InteractionHandler) (calls : List Call) (n : ℕ)
    → IsReachable k h calls n
    → IsBalanced h calls n
unfolding new locks rels
IsReachable-IsBalanced k h calls n (created memory) = record { hints = refl; thread_fits = refl }
IsReachable-IsBalanced k h calls n (inits a b p) =
    init-IsBalanced _ _ _ a b (IsReachable-IsBalanced k _ _ _ p)
IsReachable-IsBalanced k h calls n (exits p) =
    exit-IsBalanced _ _ _ (IsReachable-IsBalanced k _ _ _ p)
IsReachable-IsBalanced k h calls n (joins t p) =
    exit_joined-IsBalanced _ _ _ (IsReachable-IsBalanced k _ _ _ p)
IsReachable-IsBalanced k h calls n (acquires duration now p) =
    acquire-IsBalanced k duration now _ _ _ (IsReachable-IsBalanced k _ _ _ p)
IsReachable-IsBalanced k h calls n (turns t i p) =
    look-IsBalanced _ _ _ t i (IsReachable-IsBalanced k _ _ _ p)
IsReachable-IsBalanced k h calls n (comes_back t p) =
    come_back-IsBalanced _ _ _ t (IsReachable-IsBalanced k _ _ _ p)
