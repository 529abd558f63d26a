-- ===== src/Ndic.antt =====
-- backend/ndic-preprocessor/src: the preprocessor for DATEX II traffic data.
pub mod Model
pub mod Labels
pub mod Xml
pub mod Elaborated
pub mod Parser
pub mod Tmc
pub mod Publish
pub mod Runtime
pub mod Fetch
pub mod SdType
mod Samples
