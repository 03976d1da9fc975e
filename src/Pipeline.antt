-- ===== src/Pipeline.antt =====
-- A worker and the batcher on their common queue: components/worker/worker.cpp and
-- components/publisher/publisher.cpp, as core/main.cpp joins them in lines 107 to 115.
pub mod Shared
pub mod Published
mod Tests
