-- ===== src/Support.antt =====
-- Parts beside the publication queue: yasinpress/cache, the report schedulers of yasinpress/monitoring,
-- scheduler/scheduler.py and pipeline/dedup.py.
pub mod Cache
pub mod Reports
pub mod Snapshots
pub mod Intervals
pub mod Dedup
pub mod Expiry
pub mod Preflight
