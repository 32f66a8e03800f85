-- ===== src/Fingerprint.antt =====
-- biometrics/fingerprint/aidl: the fingerprint service over a legacy HAL.
pub mod LockoutTracker
pub mod AuthToken
pub mod Session
