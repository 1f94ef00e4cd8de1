-- ===== src/Cli.antt =====
-- yasinpress/cli/main.py and sources/catalog.py: the command line, and what it asks for at the start.
pub mod Credentials
pub mod Start
pub mod Saved
mod Tests
