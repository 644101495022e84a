-- ===== src/Transport.antt =====
-- The RemoteXPC transport: messages in the data frames of an HTTP/2 stream.
pub mod Receive
pub mod Prefix
pub mod Drain
pub mod Frames
pub mod Stream
mod Runs
