-- ===== src/Xpc.antt =====
-- The objects and messages of RemoteXPC.
pub mod Value
pub mod Bits
pub mod Encode
pub mod Decode
pub mod BitsLaws
pub mod Seen
pub mod Parts
pub mod Nested
pub mod Objects
pub mod Headers
pub mod Messages
pub mod Progress
pub mod Ends
pub mod Aligned
pub mod Small
mod Runs
