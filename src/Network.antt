-- ===== src/Network.antt =====
-- src/network: the calls of the server, its services, and the client.
pub mod Requests
pub mod Server
pub mod Steps
pub mod Live
pub mod Serving
pub mod Ready
pub mod Client
pub mod Calls
pub mod Delivers
pub mod Late
pub mod Copies
pub mod Retry
pub mod Invariant
pub mod Handled
