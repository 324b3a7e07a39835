-- ===== src/Routes/Quiet.antt =====
-- What a request may do to the committed tables: nothing where it fails or only reads, and nothing
-- unlogged to the residents.
pub mod Deps
pub mod Endpoints
pub mod Sessions
pub mod Failing
pub mod Keeping
