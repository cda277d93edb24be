-- ===== src/Generator.antt =====
-- The configuration of Asterisk: backend/src/asterisk/configGenerator.ts, one module per file or
-- section that it writes.
pub mod Values
pub mod Routes
pub mod Endpoints
pub mod Queues
pub mod Schedule
pub mod Callflow
pub mod Files
