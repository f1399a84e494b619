-- ===== src/Gapfill.antt =====
-- The gap filler of scripts/lib/gapfiller: the ranges of missing values, and the job that fills the
-- tables of a database.
pub mod Ranges
pub mod Donor
pub mod Tables
pub mod Window
pub mod Db
pub mod Job
mod Tests
mod DbTests
mod DonorTests
pub mod Script
pub mod Select
mod SelectTests
