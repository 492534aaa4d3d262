-- ===== src/Driver/Laws.antt =====
-- What the driver of the network chip sends over the bus.
pub mod Triples
pub mod Banks
pub mod Plain
pub mod Access
pub mod Streams
pub mod Reach
pub mod Reset
pub mod Sequence
pub mod Quiet
pub mod Receive
pub mod Buffer
pub mod Send
pub mod Ready
pub mod Scratch
