-- ===== src/Schema.antt =====
-- packages/shared/src/schema.ts.
pub mod Version
pub mod Json
pub mod Document
pub mod Canonical
