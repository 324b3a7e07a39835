-- ===== src/Routes.antt =====
-- app/routes: the endpoints, each in the session that app/core/database.py opens for its request.
pub mod Quiet
pub mod Bodies
pub mod Http
pub mod Units
pub mod Residents
pub mod Staff
pub mod Scans
pub mod Requests
pub mod Ids
