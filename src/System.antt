-- ===== src/System.antt =====
-- The threads of the child process over their three queues, interleaved in any order: readers,
-- workers, the batcher and publisher threads, as core/main.cpp joins them in lines 107 to 126.
-- Workers and publisher threads are several, and what a round of theirs does between two calls of a
-- queue is a step; the batcher is alone at its queue, so its round is one step.
pub mod Worker
pub mod Threads
pub mod Weight
pub mod Packing
pub mod Working
pub mod Invariant
pub mod Posting
pub mod Upstream
pub mod Growth
pub mod Balance
pub mod Reaching
pub mod Emptying
pub mod Flushing
pub mod Shipping
pub mod Draining
pub mod Pictures
pub mod Intake
pub mod Overtaking
pub mod Progress
pub mod Calm
pub mod Ordered
pub mod Sequence
mod Tests
