-- ===== src/SiteSync.antt =====
-- The generated files of a site overlay: control/site_contract/site_sync.py.
pub mod Site
pub mod Manifest
pub mod Lock
pub mod Plan
pub mod Apply
pub mod Run
pub mod Examples
