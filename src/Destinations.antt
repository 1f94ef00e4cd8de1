-- ===== src/Destinations.antt =====
-- The destinations of yasinpress/publishing: the RSS and JSON feeds in files, Eitaa, plain HTTP, and the
-- registry of publishers. How texts are rendered and sent is a parameter.
pub mod Items
pub mod Rss
pub mod Pwa
pub mod Feeds
pub mod Eitaa
pub mod Messages
pub mod Escaping
pub mod Elements
pub mod Reading
pub mod Registry
mod Tests
