-- ===== src/Coordination.antt =====
-- recipes/coordination: batches of requests, the first of several receivers, ticks until a stop.
pub mod Batcher
pub mod Select
pub mod CooperativeEvery
