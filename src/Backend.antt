-- ===== src/Backend.antt =====
-- The parts of the service around the engine that decide on their own state: backend/.
pub mod RateLimiter
pub mod DataQuality
pub mod Ingestion
pub mod Purchases
