-- ===== src/BatteryUse.antt =====
-- The battery use log of the phone: device/termux/py/stayturgid_battery_use.py.
pub mod Procs
pub mod Schedule
pub mod Fields
pub mod Stat
pub mod Tables
pub mod Checkin
pub mod Prose
pub mod Report
pub mod Rows
pub mod Gauge
pub mod Sample
pub mod Examples
