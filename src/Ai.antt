-- ===== src/Ai.antt =====
-- yasinpress/ai and processing/enrichment.py: providers that may fail, the wrappers around them, and the
-- enrichment of an article, which no failure stops. A provider's service is a parameter.
pub mod Providers
pub mod Config
pub mod Generation
pub mod Enrichment
pub mod Failures
mod Tests
