-- ===== src/ScreenControl.antt =====
-- A session that controls the screen of a device: control/lib/screen_control.py.
pub mod Device
pub mod Session
pub mod Examples
