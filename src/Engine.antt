-- ===== src/Engine.antt =====
-- yasinpress/publishing/queue.py: SQLitePublicationQueueEngine over the shared database. Each method
-- takes the database and gives the new one; `now` is its clock reading.
pub mod Config
pub mod Consumed
pub mod Claim
pub mod Finish
pub mod Run
mod Order
pub mod Selection
pub mod Usage
pub mod Frames
pub mod Grows
pub mod Capacity
pub mod Keys
pub mod Reach
pub mod Claims
pub mod Outcomes
pub mod Recovery
mod Tests
