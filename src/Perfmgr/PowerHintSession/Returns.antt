-- ===== src/Perfmgr/PowerHintSession/Returns.antt =====
-- When the methods of a session return: neither a null session record nor a division by zero.
use hardware_voltage_interfa.Base.{
  ◌≡◌, Bool, true, false, not, ◌&&◌, ◌||◌, Option, none, some, List, [], ◌∷◌,
}
use hardware_voltage_interfa.Base.Int.{ℤ, pos, div_ℤ, eq_ℤ}
use hardware_voltage_interfa.Perfmgr.SessionRecords.{Float}
use hardware_voltage_interfa.Perfmgr.GpuCapacity.{Singles, Report}
use hardware_voltage_interfa.Perfmgr.PowerHintSession.{
  Doubles, AdpfConfig, Host, PowerHintSession, Call, Outcome, is_on, is_surfaceflinger,
}
use hardware_voltage_interfa.Perfmgr.PowerHintSession.Requests.{
  Request, set_target, profile, perform,
}

abbrev is_some : {A : Type 0} → Option A → Bool
is_some none = false
is_some (some a) = true

-- A target that is 0, so that no report is taken, or at least 100 microseconds.
unfoldable pub is_long : ℤ → Bool
is_long target = eq_ℤ target (pos 0) || not (eq_ℤ (div_ℤ target 100000) (pos 0))

-- Wherever its profile turns the heuristic boost on, the session has records, and it is not one of the
-- surface flinger, whose frame rate would be traced.
unfoldable pub fits : {D : Type 0} → AdpfConfig D → PowerHintSession D → Bool
fits c s =
    not (is_on c.heuristic_boost_on)
    || (is_some s.session_records && not (is_surfaceflinger s.sess_tag))

unfoldable pub is_ready : {D : Type 0} → PowerHintSession D → Bool
unfolding is_long fits
is_ready s =
    is_long s.descriptor.target_ns && elim s.adpf_profile [ none ↦ false | some c ↦ fits c s ]

-- What being ready depends on.
unfoldable pub IsAlike : {D : Type 0} → PowerHintSession D → PowerHintSession D → Type 0
IsAlike s t =
    (t.adpf_profile ≡ s.adpf_profile)
    × (is_some t.session_records ≡ is_some s.session_records)
    × (t.descriptor.target_ns ≡ s.descriptor.target_ns)
    × (is_surfaceflinger t.sess_tag ≡ is_surfaceflinger s.sess_tag)

-- A call returned, and the session is ready for the next.
unfoldable pub Returns : {D : Type 0} → Option (Outcome D) → Type 0
unfolding is_ready
Returns none = ⊥
Returns (some (t, calls, status)) = is_ready t ≡ true

module _ (F : Float) (N : Doubles F.Double) (G : Singles F.Double) where
  open F use {Double, of_int, mul}
  open N use {to_int}

  -- A new target is long enough, and a new profile does not turn on a boost that has no records.
  unfoldable pub is_fair : Request Double → PowerHintSession Double → Bool
  unfolding fits is_long
  is_fair (set_target n) s = elim s.adpf_profile [
    | none ↦ false
    | some c ↦ is_long (to_int (mul (of_int n) c.target_time_factor))
  ]
  is_fair (profile c) s = fits c s
  is_fair _ s = true

  module _ (host : Host Double) where
    -- A part of a report returns, and the session is alike.
    Keeps : PowerHintSession Double → Option (PowerHintSession Double × List Call) → Type 0
    Keeps s none = ⊥
    Keeps s (some (t, calls)) = IsAlike s t

  -- Every request of a history is fair to the session that it meets.
  unfoldable pub AreFair : List (Host Double × Request Double) → PowerHintSession Double → Type 0
  unfolding is_fair
  AreFair [] s = Unit
  AreFair ((host, r) ∷ rs) s =
      (is_fair r s ≡ true)
      × elim (perform F N G host r s) [ none ↦ Unit | some (t, calls, status) ↦ AreFair rs t ]

  IsFairAfter : List (Host Double × Request Double) → Option (Outcome Double) → Type 0
  IsFairAfter rs out = elim out [ none ↦ Unit | some (t, calls, status) ↦ AreFair rs t ]
