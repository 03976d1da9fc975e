-- ===== src/Child.antt =====
-- core/main.cpp, lines 62 to 139: the child process, which builds the components, joins them by their
-- queues, and stops them.
pub mod Logging
pub mod Workers
pub mod Publishing
pub mod Process
pub mod Counts
pub mod Startup
mod Tests
