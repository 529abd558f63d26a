-- ===== src/Waze.antt =====
-- backend/wazejam-preprocessor/src: the preprocessor for the jams that Waze reports.
pub mod Model
pub mod Parsing
pub mod Aggregation
pub mod Publish
pub mod Lifecycle
pub mod SdType
mod Samples
