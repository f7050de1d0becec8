-- ===== src/DeployLock.antt =====
-- The lock that lets one deploy run at a time: control/lib/fleet_deploy_lock.py.
pub mod Lock
pub mod Exclusive
pub mod Examples
