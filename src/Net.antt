-- ===== src/Net.antt =====
-- The network layer: messages, the cipher of the protocol and the packets that leave and arrive.
pub mod Message
pub mod Xtea
pub mod Checksum
pub mod Packet
