-- ===== src/Services/Quiet.antt =====
-- No service but the clean-up commits.
pub mod Reading
pub mod Writes
pub mod Units
pub mod Residents
pub mod Staff
pub mod Scans
