-- ===== src/Light.antt =====
-- light: the light service over backlight and LED devices in sysfs.
pub mod Models
pub mod Sysfs
pub mod LedDevice
pub mod Brightness
pub mod Disabling
pub mod Switches
pub mod Wait
pub mod BacklightDevice
pub mod RgbLedDevice
pub mod Blend
pub mod Modes
pub mod Devices
pub mod Lights
pub mod Requests
mod Tests
