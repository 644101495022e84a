-- ===== src/Splitter.antt =====
-- `LengthBasedSplitter` of src/lib/plist/length-based-splitter.ts: `_transform` and
-- `processBinaryData`. `processXmlData` is called by nothing.
pub mod Process
pub mod Rounds
pub mod Chunks
pub mod Frames
mod Runs
