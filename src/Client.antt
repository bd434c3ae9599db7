-- ===== src/Client.antt =====
-- src/websocket-client.cc.
pub mod Frame
pub mod Base64
pub mod Sha1
pub mod Keys
pub mod Http
pub mod Link
pub mod Transfer
pub mod Program
