-- ===== src/Compiler.antt =====
-- packages/compiler/src/manifest-validation.ts, and the entries of packages/manifest/src/index.ts
-- that it reads.
pub mod Manifest
pub mod Unique
mod UniqueTests
pub mod Cycles
pub mod Scopes
pub mod Dispatch
pub mod Advisories
