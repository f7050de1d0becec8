-- ===== src/BatteryWatch.antt =====
-- The battery watch of the hub: control/lib/battery_watch.py.
pub mod Status
pub mod Evaluate
pub mod RollCall
pub mod Run
pub mod Examples
