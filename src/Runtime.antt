-- ===== src/Runtime.antt =====
-- crates/gaugemesh-core/src/runtime.rs: the circuit breaker and the scheduler of tenants.
pub mod Breaker
pub mod Queue
