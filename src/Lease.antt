-- ===== src/Lease.antt =====
-- The cross-project screen-control lease: control/lib/device_screen_lease.py.
pub mod Key
pub mod Env
pub mod Store
pub mod Write
pub mod Acquire
pub mod Release
pub mod Examples
