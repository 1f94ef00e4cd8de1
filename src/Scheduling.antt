-- ===== src/Scheduling.antt =====
-- The supervision and job runners of the runtime: yasinpress/watchdog.py, recovery.py and
-- yasinpress/scheduler. A clock reading is a parameter of each step.
pub mod Watchdog
pub mod Callback
pub mod Heartbeats
pub mod Jobs
pub mod Persistence
pub mod RoundTrip
pub mod Ticks
pub mod Supervision
pub mod Attempts
pub mod Worker
pub mod Order
mod FileTests
mod QueueTests
mod Tests
