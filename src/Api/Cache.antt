-- ===== src/Api/Cache.antt =====
-- src/api/cache.rs: the cache of responses, in Redis and in the process.
pub mod Config
pub mod Local
pub mod Keys
pub mod Redis
pub mod System
pub mod Entries
pub mod Coherence
pub mod Invariant
pub mod Answers
pub mod Store
pub mod Lookup
pub mod Encoded
pub mod SingleFlight
pub mod Typed
