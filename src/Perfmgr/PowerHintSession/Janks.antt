-- ===== src/Perfmgr/PowerHintSession/Janks.antt =====
-- The jank level of updateSessionJankState as the number of janky frames grows.
use hardware_voltage_interfa.Base.{ℕ, ◌≤◌, Bool, arith}
use hardware_voltage_interfa.Base.Int.{ℤ, to_u32}
use hardware_voltage_interfa.Perfmgr.SessionRecords.{Float}
use hardware_voltage_interfa.Perfmgr.PowerHintSession.{
  Doubles, AdpfConfig, SessionJankyLevel, light, moderate, severe,
}
use hardware_voltage_interfa.Perfmgr.PowerHintSession.Report.{update_session_jank_state}

-- The enumerators in their order.
abbrev pub level_number : SessionJankyLevel → ℕ
level_number light = 0
level_number moderate = 1
level_number severe = 2

-- From the same level and with the same variance and frame rate, more janky frames (as unsigned
-- numbers) never give a lower level, for any thresholds of the profile.
pub update_session_jank_state_mono :
    (F : Float) (N : Doubles F.Double) (c : AdpfConfig F.Double) (old : SessionJankyLevel)
    (few many : ℤ) (variance : F.Double) (is_low_fps : Bool)
    → to_u32 few ≤ to_u32 many
    → level_number (update_session_jank_state F N c old few variance is_low_fps)
      ≤ level_number (update_session_jank_state F N c old many variance is_low_fps)
unfolding update_session_jank_state
update_session_jank_state_mono F N c old few many variance is_low_fps le = ground arith
