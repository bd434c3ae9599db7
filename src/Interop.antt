-- ===== src/Interop.antt =====
-- The client against the server: the handshake, and the frames in both directions.
pub mod Upload
pub mod Download
pub mod Session
pub mod Links
pub mod Arrival
pub mod Transmission
