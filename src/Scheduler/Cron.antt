-- ===== src/Scheduler/Cron.antt =====
-- The package cron_converter, as crawler_scheduler.py uses it: `Cron(schedule)` parses a schedule or
-- raises, and `.schedule(ref).next()` gives the next time of the schedule from `ref` on.
use open_energy_data_server.Common.{ℕ, ◌≤◌, Option}
use open_energy_data_server.Yaml.{Value}

pub record CronLib : Type 1 where
  pub Cron : Type 0
  pub parse : Option Value → Option Cron
  pub next : Cron → ℕ → ℕ
  pub next_from : (c : Cron) (ref : ℕ) → ref ≤ next c ref
