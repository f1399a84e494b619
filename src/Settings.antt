-- ===== src/Settings.antt =====
-- Settings that come from the environment or from loosely typed values: crawler/common/local_env.py
-- and the helpers of crawler/common/base_crawler.py.
pub mod Recipients
pub mod RateLimit
pub mod LogFiles
pub mod EmailEnv
mod Tests
