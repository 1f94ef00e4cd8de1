-- ===== src/Publishing.antt =====
-- yasinpress/publishing/reliability.py and orchestrator.py: retried deliveries to every destination.
pub mod Reliability
pub mod Retries
pub mod Orchestrator
pub mod Idempotence
mod Tests
