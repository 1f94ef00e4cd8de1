-- ===== src/Processor.antt =====
-- yasinpress/publishing/queue_processor.py: PublicationQueueProcessor, which publishes a whole batch in
-- one cycle over the same tables as the engine. The limits, the lease and the delay are the fields of
-- QueueConfig; the attempts are bounded by each job's own `max_attempts`.
pub mod Select
pub mod Cycle
pub mod Slots
pub mod Outcomes
pub mod Leases
pub mod Limit
pub mod Hourly
mod Tests
