-- ===== src/Server.antt =====
-- app/main.py: the table of routes, and the periodic task from the start of the server to its end.
pub mod Routing
pub mod Dispatch
pub mod Addresses
pub mod Task
pub mod Shutdown
