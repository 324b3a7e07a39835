-- ===== src/Permissions.antt =====
-- Who gets past app/core/deps.py and the logins of app/services/checker_service.py and
-- admin_service.py.
pub mod Identity
pub mod Roles
pub mod Checkers
pub mod Clearance
pub mod Opening
pub mod Accepting
pub mod Tokens
pub mod Doors
pub mod Passwords
