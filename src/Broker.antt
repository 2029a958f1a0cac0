-- ===== src/Broker.antt =====
-- broker/Broker.cc: the table of partitions and the requests.
pub mod State
pub mod Create
pub mod Delete
pub mod Messages
pub mod Delivery
pub mod Log
pub mod Creation
pub mod Offsets
pub mod Deletion
pub mod Restart
pub mod Info
