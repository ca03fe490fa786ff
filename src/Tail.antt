-- ===== src/Tail.antt =====
-- The live tail: packages/obs-collector/src/durable-objects/tail-hub.ts.
pub mod Hub
pub mod Laws
pub mod Delivery
mod Tests
