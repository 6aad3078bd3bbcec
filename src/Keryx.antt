-- ===== src/Keryx.antt =====
-- packages/keryx: the frames of the realtime server and the authentication of publishers.
pub mod Json
pub mod Protocol
pub mod Publish
pub mod Tickets
