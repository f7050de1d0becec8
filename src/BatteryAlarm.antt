-- ===== src/BatteryAlarm.antt =====
-- The low-battery alarm on the phone: device/termux/py/stayturgid_battery_alarm.py.
pub mod Clock
pub mod Battery
pub mod Sound
pub mod Evening
pub mod Pass
pub mod Player
pub mod Examples
