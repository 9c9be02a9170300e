-- ===== src/Aggregator.antt =====
-- pkg/aggregator: the pending buffer between the upstream reader and the downstream writer, and the
-- two goroutines on it.
pub mod Buffer
pub mod Threads
