-- ===== src/Tests.antt =====
-- The theorems at concrete inputs.
pub mod Model
pub mod Blocks
pub mod Coding
pub mod Streams
pub mod Tools
pub mod Ending
pub mod Files
