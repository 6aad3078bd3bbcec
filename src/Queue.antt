-- ===== src/Queue.antt =====
-- packages/runtime/src/runtime.ts: the checks that a queued delivery passes, and the seed of the
-- execution that runs it.
pub mod Checks
pub mod Validation
pub mod Seed
pub mod Laws
pub mod Accepted
mod Tests
