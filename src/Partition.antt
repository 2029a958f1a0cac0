-- ===== src/Partition.antt =====
-- commitlog/Partition.cc, by its methods, and what they make of the messages.
pub mod State
pub mod Clean
pub mod Open
pub mod Write
pub mod Read
pub mod Close
pub mod Chunks
pub mod Search
pub mod Termination
pub mod Linear
pub mod Lookup
pub mod Reads
pub mod Ends
pub mod Sizes
pub mod Writes
pub mod History
pub mod Appends
pub mod Steady
pub mod Opens
pub mod Thinned
pub mod Deletes
pub mod Cleaning
pub mod Tidy
pub mod Reopening
pub mod Fresh
pub mod Closed
