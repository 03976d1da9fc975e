-- ===== src/Saver.antt =====
-- utils/frame_saver.h and frame_saver.cpp: frames that are saved as images.
pub mod Settings
pub mod Encode
pub mod Save
pub mod Resources
pub mod Keeping
pub mod Rules
pub mod Paths
mod Tests
