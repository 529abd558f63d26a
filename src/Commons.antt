-- ===== src/Commons.antt =====
-- backend/commons/src: the module that the three preprocessors share.
pub mod Sets
pub mod Messages
pub mod Declared
pub mod Json
pub mod Kpi
pub mod Rabbitmq
pub mod Utils
