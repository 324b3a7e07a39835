-- ===== src/Services.antt =====
-- app/services: one module for each service, and for what two of them share.
pub mod Quiet
pub mod Logging
pub mod Units
pub mod Residents
pub mod Accounts
pub mod Audit
pub mod Cleanup
pub mod Crypto
pub mod Access
