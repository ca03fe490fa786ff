-- ===== src/Alerts.antt =====
-- Alert rules: packages/obs-collector/src/plugins/alerts-evaluator.ts over the tables of
-- packages/obs-collector/src/lib/alerts-store.ts.
pub mod Store
pub mod Evaluator
pub mod Transitions
pub mod Runs
pub mod Pool
pub mod Concurrency
pub mod Batch
mod Tests
