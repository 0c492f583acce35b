-- ===== src/Tests.antt =====
-- Runs of the definitions and instances of the theorems at concrete inputs.
pub mod Samples
pub mod Decoding
pub mod Matching
pub mod Reading
pub mod Disk
pub mod Storing
pub mod Running
pub mod Parsing
