-- ===== src/Commons/Rabbitmq.antt =====
-- backend/commons/src/rabbitmq/client.go
pub mod Batches
pub mod Client
pub mod Consumption
