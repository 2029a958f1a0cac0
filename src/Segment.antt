-- ===== src/Segment.antt =====
-- commitlog/Segment.cc, by its methods, and what they make of a list of messages.
pub mod State
pub mod Recover
pub mod Write
pub mod Read
pub mod Close
pub mod Layout
pub mod Holds
pub mod Sizes
pub mod Search
pub mod Reads
pub mod Recovery
pub mod Opened
pub mod Closing
pub mod Termination
pub mod Failures
