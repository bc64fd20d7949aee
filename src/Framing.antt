-- ===== src/Framing.antt =====
-- src/framing.cpp and include/vynkor/framing.hpp: the wire frames.
pub mod Crc
pub mod Header
pub mod Fragment
pub mod Zstd
pub mod Pack
pub mod Parse
pub mod Read
pub mod Sound
pub mod Wire
pub mod RoundTrip
pub mod Tests
