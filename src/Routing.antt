-- ===== src/Routing.antt =====
-- recipes/routing: one source for many destinations, many for one, and a pool of workers.
pub mod LoadBalance
pub mod Fairness
pub mod WorkerPool
pub mod Merge
pub mod Tee
pub mod Closing
pub mod SendWhenReady
