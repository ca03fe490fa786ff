-- ===== src/Redact.antt =====
-- The redaction processor: packages/obs-collector/src/plugins/redaction-processor.ts, with the JSON
-- helpers of packages/obs-collector/src/lib/json.ts.
pub mod Processor
pub mod Laws
pub mod Spans
mod Tests
