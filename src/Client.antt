-- ===== src/Client.antt =====
-- src/client.cpp and include/vynkor/client.hpp: the connection of a plugin to the kernel.
pub mod Reassembly
pub mod State
pub mod Send
pub mod Receive
pub mod Requests
pub mod Replies
pub mod Session
pub mod Write
pub mod Gateway
pub mod Tests
