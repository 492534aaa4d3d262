-- ===== src/World/Laws.antt =====
-- What packetLoop of tcpip.cpp does with the packets that arrive.
pub mod Arp
pub mod Tcp
pub mod Waiting
pub mod Callbacks
pub mod Keeps
pub mod Server
pub mod Lamps
pub mod Running
pub mod Lease
pub mod Agrees
pub mod Quiet
pub mod Nested
pub mod Address
pub mod Gateway
pub mod Passes
