-- ===== src/Repair.antt =====
-- The repair pass of the phone: device/termux/py/stayturgid_repair.py.
pub mod Errors
pub mod Profiles
pub mod Tailscale
pub mod Examples
