-- ===== src/Lifecycle/Endpoints.antt =====
-- Every endpoint makes only changes that the specification allows.
mod Units
mod Residents
mod Staff
mod Scans
pub use Units.*
pub use Residents.*
pub use Staff.*
pub use Scans.*
