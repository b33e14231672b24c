-- ===== src/Handshake.antt =====
-- src/handshake.h and src/handshake.c: handshake packets as lists of type-length-value records.
pub mod Record
pub mod Layout
pub mod Parse
pub mod Methods
pub mod Packet
mod Tests
