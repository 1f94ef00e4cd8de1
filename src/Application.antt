-- ===== src/Application.antt =====
-- yasinpress/pipeline/application.py: YasinPressApplication over the shared database, its settings and the runtime
-- around it.
pub mod Calls
pub mod Factory
pub mod Proper
pub mod Intake
pub mod Production
pub mod ProperCycle
pub mod Histories
pub mod Runtime
pub mod Settings
pub mod Validity
mod Tests
