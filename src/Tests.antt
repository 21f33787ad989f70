-- ===== src/Tests.antt =====
-- Concrete buffers, errors and messages, and the theorems at them.
pub mod Buffers
pub mod Codecs
pub mod Conveyors
pub mod Events
pub mod Messages
pub mod Peers
pub mod Streams
