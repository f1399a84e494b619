-- ===== src/Runtime.antt =====
-- `CrawlerRunService` of crawler_admin/runtime_service.py: the table of runs, the actions an admin
-- may start, and the threads that carry them out.
pub mod Rows
pub mod Action
pub mod Service
pub mod DataItems
pub mod Forms
pub mod Definitions
pub mod Inputs
pub mod Locations
pub mod Prepared
pub mod Prepare
pub mod Start
mod Tests
