-- ===== src/Gateway.antt =====
-- apps/openlive-gateway: the state a gateway session keeps about its client and its tasks.
pub mod Tasks
pub mod Timeline
pub mod Latency
pub mod Session
