-- ===== src/Api.antt =====
-- yasinpress/api: requests, responses, the router with its token, and the pages of a collection.
pub mod Requests
pub mod Router
pub mod Access
pub mod Pages
mod Tests
