-- ===== src/Http.antt =====
-- HTTP/2 frames, as RemoteXPC uses them.
pub mod Frames
pub mod Parser
pub mod ReadBack
pub mod Stream
mod Runs
