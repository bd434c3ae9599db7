-- ===== src/Server.antt =====
-- The server: one connection (src/websocket-data.cc, src/packet-buffer.h), its event loop, the poller
-- with its channels, and the pool of loops.
pub mod Socket
pub mod Packet
pub mod Receive
pub mod Send
pub mod Http
pub mod Connection
pub mod Loop
pub mod Poller
pub mod Channel
pub mod Pool
