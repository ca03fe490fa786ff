-- ===== src/Narrate.antt =====
-- The gate of the narrate layer: packages/obs-collector/src/lib/narrate-gate.ts.
pub mod Gate
pub mod Parse
pub mod Fallback
mod Tests
