-- ===== src/System.antt =====
-- The gateway and the C++ server together: the lines of one are what the other reads.
pub mod Dialogue
pub mod Chat
pub mod Stream
pub mod Shown
mod Tests
