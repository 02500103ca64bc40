-- ===== src/Hosting.antt =====
-- recipes/hosting: a supervisor inside a task group, or an event loop, of its own.
pub mod SupervisorHost
pub mod SyncBridge
