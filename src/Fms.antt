-- ===== src/Fms.antt =====
-- `EntsoeFMSCrawler` of crawler/entsoe_fms.py: which files it reads, and what their rows do to the
-- tables.
pub mod Items
pub mod Frame
pub mod Table
pub mod Files
pub mod Download
pub mod Backfill
mod Tests
