-- ===== src/Supervisor.antt =====
-- supervisor.py. `Host` is the life of one daemon, _host, and `Task` the same in small steps;
-- `Registry` is the supervisor's own state: registration, entry, stop and diagnostics; `Joint` is the
-- supervisor with its tasks.
pub mod Record
pub mod Host
pub mod Task
pub mod Backoff
pub mod Lifecycle
pub mod Settled
pub mod Registry
pub mod Added
pub mod Consistency
pub mod Stop
pub mod StopWakes
pub mod Joint
pub mod Decorated
pub mod Logging
