-- ===== src/Backend/Ingestion.antt =====
-- The import of statements: backend/ingestion/. Identifiers are their texts.
pub mod Models
pub mod Security
pub mod Normalizer
pub mod Dialect
pub mod Parser
pub mod Categorizer
pub mod Deduplicator
pub mod Rows
pub mod Service
