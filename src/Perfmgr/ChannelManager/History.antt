-- ===== src/Perfmgr/ChannelManager/History.antt =====
-- Histories of calls of the manager, against the set of clients that have a channel.
use hardware_voltage_interfa.Base.{
  ℕ, ◌≡◌, ◌≢◌, inl, inr, refl, sym, ap, ◌∙◌, ◌==◌, if◌then◌else◌, Bool, true, false, Option, none,
  some, List, [], ◌∷◌, arith, Bool-cases, ==_iff,
}
use hardware_voltage_interfa.Base.Dict.{find}
use hardware_voltage_interfa.Perfmgr.ChannelGroup.{SessionChannel}
use hardware_voltage_interfa.Perfmgr.ChannelManager.{
  ChannelManager, map_key, channel_at, close_channel, get_channel_config,
}
use hardware_voltage_interfa.Perfmgr.ChannelManager.Links.{IsLinked}
use hardware_voltage_interfa.Perfmgr.ChannelManager.Closing.{IsCloseOf, close_channel-IsCloseOf}
use hardware_voltage_interfa.Perfmgr.ChannelManager.Opening.{
  IsOpened, get_or_create_channel-IsOpened,
}

pub data ChannelCall : Type 0 where
  configs closes : ℕ → ℕ → ChannelCall

module _ (valid : SessionChannel → Bool) where
  -- None where the process ends.
  unfoldable pub call : ChannelCall → ChannelManager → Option ChannelManager
  call (configs tgid uid) m = elim (get_channel_config valid tgid uid m) [
    | none ↦ none
    | some (n, config) ↦ some n
  ]
  call (closes tgid uid) m = some (close_channel tgid uid m).0

  unfoldable pub run : List ChannelCall → ChannelManager → Option ChannelManager
  run [] m = some m
  run (c ∷ cs) m = elim (call c m) [ none ↦ none | some n ↦ run cs n ]

abbrev pub empty : ChannelManager
empty = record { channel_groups = []; channel_map = [] }

abbrev pub is_some {ℓ} : {A : Type ℓ} → Option A → Bool
is_some none = false
is_some (some a) = true

-- Whether the client with the key `k` has a channel.
unfoldable pub is_open : ℕ → ChannelManager → Bool
is_open k m = is_some (find k m.channel_map)

-- The same by the calls alone.
abbrev pub open_step : ℕ → Bool → ChannelCall → Bool
open_step k was (configs tgid uid) = if map_key tgid uid == k then true else was
open_step k was (closes tgid uid) = if map_key tgid uid == k then false else was

unfoldable pub open_after : ℕ → Bool → List ChannelCall → Bool
open_after k was [] = was
open_after k was (c ∷ cs) = open_after k (open_step k was c) cs

-- A call of the manager returned `n`.
pub record IsCalled (c : ChannelCall) (m n : ChannelManager) : Type 0 where
  pub linked : IsLinked n
  pub opens : (k : ℕ) → is_open k n ≡ open_step k (is_open k m) c

configs-IsCalled :
    (tgid uid : ℕ) (m : ChannelManager) (r : ChannelManager × SessionChannel)
    → IsOpened tgid uid m r
    → IsCalled (configs tgid uid) m r.0
unfolding is_open
configs-IsCalled tgid uid m r o = record {
  linked = o.linked;
  opens = λ k. elim (Bool-cases (map_key tgid uid == k)) [
    | inl same ↦
        let eq = (==_iff (map_key tgid uid) k).0 same in
        let found = ap (λ j. find j r.0.channel_map) (sym eq) ∙ o.mapped in
        rw same (ap is_some found)
    | inr ne ↦
        let apart : map_key tgid uid ≢ k = ground arith in rw ne (ap is_some (o.other_keys k apart))
  ];
}

closes-IsCalled :
    (tgid uid : ℕ) (m : ChannelManager) (r : ChannelManager × Bool)
    → IsCloseOf (map_key tgid uid) m r
    → IsCalled (closes tgid uid) m r.0
unfolding is_open
closes-IsCalled tgid uid m r o = record {
  linked = o.linked;
  opens = λ k. elim (Bool-cases (map_key tgid uid == k)) [
    | inl same ↦
        let eq = (==_iff (map_key tgid uid) k).0 same in
        rw same (ap is_some (ap (λ j. find j r.0.channel_map) (sym eq) ∙ gone))
    | inr ne ↦
        let apart : map_key tgid uid ≢ k = ground arith in rw ne (ap is_some (others k apart))
  ];
}
  where
    gone : find (map_key tgid uid) r.0.channel_map ≡ none
    gone = elim o.outcome [
      | inl (answer, absent, same) ↦
          ap (λ (n : ChannelManager). find (map_key tgid uid) n.channel_map) same ∙ absent
      | inr (answer, (v, there, closed)) ↦ closed.gone
    ]

    others : (k : ℕ) → map_key tgid uid ≢ k → find k r.0.channel_map ≡ find k m.channel_map
    others k apart = elim o.outcome [
      | inl (answer, absent, same) ↦ ap (λ (n : ChannelManager). find k n.channel_map) same
      | inr (answer, (v, there, closed)) ↦ closed.other_keys k apart
    ]

call-IsCalled :
    (valid : SessionChannel → Bool) (c : ChannelCall) (m : ChannelManager)
    → IsLinked m
    → (n : ChannelManager) × (call valid c m ≡ some n) × IsCalled c m n
unfolding call get_channel_config
call-IsCalled valid (configs tgid uid) m l =
    let (r, e, o, old) = get_or_create_channel-IsOpened tgid uid m l in
    (r.0, ground arith, configs-IsCalled tgid uid m r o)
call-IsCalled valid (closes tgid uid) m l = (
  (close_channel tgid uid m).0,
  refl,
  closes-IsCalled tgid uid m (close_channel tgid uid m) (close_channel-IsCloseOf tgid uid m l),
)

-- The manager `n` after the calls `cs` on `m`.
pub record IsRun (cs : List ChannelCall) (m n : ChannelManager) : Type 0 where
  pub linked : IsLinked n
  pub opens : (k : ℕ) → is_open k n ≡ open_after k (is_open k m) cs

run_from :
    (valid : SessionChannel → Bool) (cs : List ChannelCall) (m : ChannelManager)
    → IsLinked m
    → (n : ChannelManager) × (run valid cs m ≡ some n) × IsRun cs m n
unfolding run open_after
run_from valid [] m l = (m, refl, record { linked = l; opens = λ k. refl })
run_from valid (c ∷ cs) m l =
    let (n, e, one) = call-IsCalled valid c m l in
    let (p, f, rest) = run_from valid cs n one.linked in
    (
      p,
      ground arith,
      record {
        linked = rest.linked;
        opens = λ k. rest.opens k ∙ ap (λ was. open_after k was cs) (one.opens k);
      },
    )

pub empty-IsLinked : IsLinked empty
unfolding find channel_at
empty-IsLinked = record {
  groups = record {
    ordered = tt;
    sound = λ k g e. absurd (ground arith);
    filed = λ k g e. absurd (ground arith);
  };
  inhabited = λ k g e. absurd (ground arith);
  distinct = tt;
  forward = λ k v e. absurd (ground arith);
  backward = λ v c e. absurd (ground arith);
}

-- No history of calls of a new manager ends the process; afterwards the channel map and the slots of
-- the groups are tied to each other, and a client has a channel exactly if it asked for one after it
-- last closed one.
pub run-IsRun :
    (valid : SessionChannel → Bool) (cs : List ChannelCall)
    → (n : ChannelManager) × (run valid cs empty ≡ some n)
      × IsLinked n
      × ((k : ℕ) → is_open k n ≡ open_after k false cs)
unfolding is_open find
run-IsRun valid cs =
    let (n, e, r) = run_from valid cs empty empty-IsLinked in (n, e, r.linked, r.opens)
