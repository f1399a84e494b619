-- ===== src/Scheduler.antt =====
-- crawler_scheduler.py: the jobs, the queue of the jobs that are due, the scheduler thread, and how
-- the configuration becomes jobs.
pub mod Job
mod Tests
mod ConfigTests
pub mod Queue
pub mod Cron
pub mod Expand
pub mod Load
pub mod Loop
pub mod JobThread
