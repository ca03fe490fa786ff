-- ===== src/Telemetry.antt =====
-- Spans in packages/telemetry-sdk/src/span.ts: their export, their attributes and tree, and the headers
-- that carry their context.
pub mod Otlp
pub mod Exporter
pub mod KeepLast
pub mod Headers
pub mod Mcp
pub mod Texts
pub mod Trace
pub mod Baggage
pub mod Propagation
pub mod Effects
pub mod Delivery
pub mod Span
pub mod Links
pub mod Growth
pub mod Tree
pub mod Stamp
mod Tests
