-- ===== src/Logging.antt =====
-- The log: src/fixed-buffer.h, src/async-logging.cc, src/log-stream.cc, src/logging.cc and the files
-- that it writes.
pub mod Async
pub mod Stream
pub mod File
