-- ===== src/Ws.antt =====
-- src/ws.cpp and include/vynkor/ws.hpp: the WebSocket transport.
pub mod Url
pub mod Connection
pub mod Handshake
pub mod Codec
pub mod Stream
pub mod Receive
pub mod Tests
