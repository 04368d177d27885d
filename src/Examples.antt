-- ===== src/Examples.antt =====
-- Concrete runs of the models, and their theorems at concrete inputs.
pub mod Leases
pub mod Turns
pub mod Packets
pub mod Tasks
pub mod Sessions
pub mod Endpoints
pub mod Releases
pub mod Conversations
pub mod Providers
