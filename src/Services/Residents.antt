-- ===== src/Services/Residents.antt =====
-- app/services/resident_service.py, method by method.
mod Provision
mod Activation
mod Management
unfoldable pub use Provision.*
unfoldable pub use Activation.*
unfoldable pub use Management.*
