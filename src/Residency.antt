-- ===== src/Residency.antt =====
-- What the methods of app/services/resident_service.py and unit_service.py promise to their callers.
pub mod Entries
pub mod Placing
pub mod Registration
pub mod Revocation
pub mod Contacts
pub mod Activation
pub mod Capacity
pub mod Refusals
pub mod Reuse
pub mod Accepting
pub mod Onboarding
pub mod Racing
pub mod Contending
