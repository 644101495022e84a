-- ===== src/Mdns.antt =====
-- Multicast DNS: names and queries.
pub mod Names
pub mod RoundTrip
mod Runs
