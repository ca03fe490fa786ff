-- ===== src/Profile.antt =====
-- What is done with decoded profiles: packages/obs-collector/src/lib/parse-pprof.ts and
-- packages/dashboard/src/components/flame-graph/parse-pprof.ts.
pub mod Trace
pub mod Selection
pub mod Filter
pub mod Flame
pub mod Weights
pub mod Layout
pub mod Frames
pub mod Summary
pub mod Top
mod Tests
