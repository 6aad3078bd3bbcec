-- ===== src/Realtime.antt =====
-- packages/realtime/src/index.ts: the client of the realtime server, with its connection, its
-- subscriptions and its pending commands.
pub mod State
pub mod Channels
pub mod Connection
pub mod Authorization
pub mod Receive
pub mod Events
pub mod Driven
pub mod Exchanges
pub mod Invariant
pub mod Settling
pub mod Commands
mod Tests
