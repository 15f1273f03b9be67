-- ===== src/Model.antt =====
-- The data model: src/model of the crate (enums, upstream payloads, master data, tracker records).
pub mod Enums
pub mod Sekai
pub mod Event
pub mod Tracker
