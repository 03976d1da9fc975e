-- ===== src/StreamIo.antt =====
-- components/stream_io/stream_io_manager.cpp: the threads that read the streams.
-- Manager models the set of threads (lines 220 to 285), Connect
-- the attempts to open a stream (lines 304 to 364).
pub mod Manager
pub mod Phases
pub mod Reconcile
pub mod Change
pub mod Connect
pub mod Backoff
pub mod Media
pub mod Graph
pub mod Sinks
pub mod Reading
pub mod Thread
pub mod Total
pub mod Lifetime
mod ReaderTests
mod Tests
