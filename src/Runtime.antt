-- ===== src/Runtime.antt =====
-- crates/openlive-runtime: turn taking, answer leases, safety gate and session store.
pub mod Lease
pub mod Safety
pub mod Store
pub mod Chronos
pub mod Engine
