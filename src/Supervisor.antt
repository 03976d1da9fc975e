-- ===== src/Supervisor.antt =====
-- core/main.cpp: the parent process, which watches the child that does the work.
pub mod Parent
pub mod Watch
mod Tests
