-- ===== src/Commons/Utils.antt =====
-- backend/commons/src/sharedUtils: the small types and helpers.
pub mod Values
pub mod Slices
pub mod Counters
pub mod ApiKeys
pub mod Services
mod Tests
