-- ===== src/BootLoop.antt =====
-- The boot loop of the phone: device/termux/py/start_adb.py.
pub mod Forks
pub mod Reauth
pub mod Adb
pub mod Logs
pub mod Single
pub mod Examples
