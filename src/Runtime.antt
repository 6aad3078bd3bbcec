-- ===== src/Runtime.antt =====
-- packages/runtime/src: the lifecycle of the participants, boot and shutdown, and what a profile boots.
pub mod Lifecycle
pub mod Unwind
pub mod Boot
pub mod Profile
pub mod Settings
pub mod Graph
