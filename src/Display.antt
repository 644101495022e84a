-- ===== src/Display.antt =====
-- The media streams of src/services/ios/display: RTP and RTCP (transport), HEVC pictures (video).
pub mod Rtp
pub mod Receiver
pub mod Closing
pub mod Rtcp
pub mod Hevc
pub mod HevcLaws
pub mod Assembler
pub mod Absorb
pub mod Pictures
pub mod HevcConfig
pub mod Rbsp
pub mod BitReader
pub mod CodecFields
mod Runs
