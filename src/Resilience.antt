-- ===== src/Resilience.antt =====
-- src/nplg_mcp/resilience.py: the bulkhead and circuit breaker before one upstream service.
-- Doubles are the interface `Floats`. The clock, the random source and the observer are arguments of each
-- transition: what they answered there. Every transition runs under the guard's lock.
pub mod Deadline
pub mod Policy
pub mod Guard
pub mod Complete
pub mod Permits
pub mod Runs
pub mod Wedge
mod Tests
