-- ===== src/Pipeline.antt =====
-- yasinpress/pipeline/service.py and the parts of yasinpress/processing that it calls: from feed items
-- to queued jobs.
pub mod Similar
pub mod Articles
pub mod Queueing
pub mod FairBatch
pub mod Items
pub mod Direct
pub mod DirectLimit
pub mod Updates
pub mod Submission
pub mod Batch
pub mod Levels
mod Tests
