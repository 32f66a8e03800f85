-- ===== src/Health.antt =====
-- health/aidl/default: charging control and fast charging over device files.
pub mod Files
pub mod ChargingControl
pub mod FastCharge
mod Tests
