-- ===== src/Watchtower.antt =====
-- internal/watchtower: the client of the relay.
pub mod Queue
