-- ===== src/Sources.antt =====
-- yasinpress/sources/manager.py, filters.py and feed.py, and fetch/feed.py: the feeds, their health, what
-- their documents give, and the filter of their items.
pub mod Xml
pub mod Feed
pub mod Manager
pub mod Filters
pub mod Health
mod Tests
