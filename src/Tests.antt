-- ===== src/Tests.antt =====
-- Runs on small inputs, and the theorems at inputs that meet their hypotheses.
mod Frames
mod Receiving
mod Sending
mod Connecting
mod Logs
mod Loops
mod Threading
mod Sharing
mod Pooling
mod Stops
mod Digests
mod Links
mod Arriving
mod Polling
mod Accepting
mod Lines
mod Transmitting
