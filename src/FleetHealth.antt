-- ===== src/FleetHealth.antt =====
-- What a probe of a phone says of its health: control/lib/fleet_health.py.
pub mod Report
pub mod Evaluate
pub mod Examples
