-- ===== src/Config.antt =====
-- utils/ConfigManager.cc: the names of the configuration files, the state, and the operations.
pub mod Keys
pub mod State
pub mod Open
pub mod Table
pub mod Close
pub mod Load
pub mod Bytes
pub mod Holds
pub mod Sessions
pub mod Parsing
pub mod Others
