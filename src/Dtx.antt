-- ===== src/Dtx.antt =====
-- The messages of the Instruments service: their headers and the joining of their fragments.
pub mod Header
pub mod Fragmenter
mod Runs
