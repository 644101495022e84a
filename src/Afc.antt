-- ===== src/Afc.antt =====
-- The Apple File Conduit: its packets, and the reads from its socket.
pub mod Packets
pub mod Reads
pub mod Demux
pub mod Tables
pub mod Balance
pub mod Lifecycle
pub mod Routing
pub mod Tracking
pub mod Answers
pub mod Stale
mod Runs
