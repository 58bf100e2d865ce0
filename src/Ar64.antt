-- ===== src/Ar64.antt =====
-- src/dach/dach_ar64.c: the arithmetic coder, over any model that the interface admits.
pub mod State
pub mod Stream
pub mod Words
pub mod Interval
pub mod Output
pub mod Coder
pub mod Masks
pub mod Emit
pub mod EncodeLoop
pub mod Narrow
pub mod Target
pub mod Trace
pub mod Worth
pub mod Input
pub mod Bitin
pub mod DecodeRound
pub mod DecodeLoop
pub mod Encode
pub mod Decode
pub mod Ending
pub mod DecodeEnding
pub mod BitsEnding
pub mod EncodeEnding
pub mod Stop
pub mod Start
