-- ===== src/Worker.antt =====
-- components/worker: threads that crop and scale the decoded frames.
pub mod Filter
pub mod Context
pub mod Loop
pub mod Provenance
pub mod Outputs
pub mod Tests
