-- ===== src/Usbmux.antt =====
-- Messages to and from the usbmux daemon.
pub mod Codec
pub mod Stream
mod Runs
