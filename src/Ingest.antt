-- ===== src/Ingest.antt =====
-- The API keys of ingest and their check: packages/obs-collector/src/lib/projects-store.ts and
-- packages/obs-collector/src/auth/ingest-auth.ts.
pub mod Keys
pub mod Cache
pub mod Auth
pub mod CacheLaws
pub mod KeyLaws
pub mod Serve
pub mod Revocation
pub mod Transparent
mod Tests
