-- ===== src/FleetMonitor.antt =====
-- The monitor's pass over one phone: control/bin/fleet_health_monitor.py.
pub mod Stamps
pub mod Heal
pub mod Fallback
pub mod Hints
pub mod Tasker
pub mod Devlog
pub mod Check
pub mod Examples
