-- ===== src/Admin.antt =====
-- crawler_admin/config_service.py: the checks of a configuration before it is saved.
pub mod Issues
pub mod Preview
pub mod Jobs
pub mod Validate
mod Tests
