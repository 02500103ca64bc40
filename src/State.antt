-- ===== src/State.antt =====
-- recipes/state: the lossy senders over one in-process channel.
pub mod Lossy
pub mod Latest
pub mod Buffer
pub mod DropOldest
