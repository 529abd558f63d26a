-- ===== src/Mhd.antt =====
-- backend/mhd-preprocessor/src: the preprocessor for the live positions of public transport.
pub mod Model
pub mod Segment
pub mod Calendar
pub mod Store
pub mod Matching
pub mod Publish
pub mod Timetable
pub mod Feed
pub mod Runtime
pub mod Week
pub mod Attributes
pub mod Live
pub mod Config
mod Samples
pub mod SdType
