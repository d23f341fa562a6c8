-- ===== src/Contract.antt =====
-- The HTTP contract between the services: what the clients in the API Gateway and in the Recovery Engine
-- make of the Worker's answers.
pub mod Http
pub mod Extraction
pub mod JobRows
pub mod Stream
pub mod Endpoint
pub mod Served
