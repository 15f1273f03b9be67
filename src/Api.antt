-- ===== src/Api.antt =====
-- The HTTP API: src/api of the crate.
pub mod Error
pub mod WsTicket
pub mod PrivateLookup
pub mod Schemas
pub mod RoundMetrics
pub mod Realtime
pub mod Socket
pub mod Cache
