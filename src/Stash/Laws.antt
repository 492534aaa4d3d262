-- ===== src/Stash/Laws.antt =====
-- The blocks and the texts of the stash.
pub mod Bits
pub mod Alloc
pub mod Size
pub mod Create
pub mod Reading
pub mod Saved
pub mod Formats
pub mod Preparing
pub mod Rounds
pub mod Extracting
pub mod Sending
