-- ===== src/Upkeep.antt =====
-- What the clean-up of app/services/cleanup_service.py and the pages of
-- app/services/audit_service.py promise.
pub mod Purges
pub mod Filters
pub mod Joining
pub mod Pages
pub mod Bounds
