-- ===== src/Scheduler/Load.antt =====
-- `load_config` and `get_scheduled_jobs` of crawler_scheduler.py. The configuration file is what
-- `yaml.safe_load` returns for it (`none` where there is no file); the names of the crawler modules
-- come from the folder, and the class of a module from its import (`none` where that raises).
pub mod Laws
use mathlib.Core.Option
use open_energy_data_server.Common.{
  ℕ, String, Bool, true, false, Option, none, some, List, [], ◌∷◌, ◌++◌, str_eq, if◌then◌else◌,
}
use open_energy_data_server.Yaml
use open_energy_data_server.Yaml.{Value, dict, Fields, end, field, put, without}
use open_energy_data_server.Yaml.Merge.{get_crawler_config_with_defaults}
use open_energy_data_server.Settings.EmailEnv.{EmailEnv, apply_email_env_overrides}
use open_energy_data_server.Scheduler.Cron.{CronLib}
use open_energy_data_server.Scheduler.Job.{
  CrawlerClass, CrawlerJobConfig, ScheduledCrawlerJob, job_id_of, enabled,
}
use open_energy_data_server.Scheduler.Expand.{expand_crawler_job_configs, get_job_lock_keys}

-- `config.get("default", {})` where it is a mapping, and `{}` otherwise
unfoldable pub default_section : Option Value → Fields
default_section (some (dict fields)) = fields
default_section _ = end

-- `if "jobs" in crawler_config: merged_crawler["jobs"] = crawler_config["jobs"]`
unfoldable pub with_own_jobs : Option Value → Fields → Fields
with_own_jobs none merged = merged
with_own_jobs (some jobs) merged = put "jobs" jobs merged

unfoldable pub merged_crawler : Fields → Fields → Fields
unfolding with_own_jobs
merged_crawler default_config crawler_config =
    with_own_jobs (Yaml.get "jobs" crawler_config)
      (get_crawler_config_with_defaults default_config (without "jobs" crawler_config))

-- one round of the loop over `config.items()`
unfoldable pub load_section : Fields → String → Value → Fields → Fields
unfolding merged_crawler
load_section default_config name (dict crawler_config) merged_config =
    if str_eq name "default"
    then merged_config
    else put name (dict (merged_crawler default_config crawler_config)) merged_config
load_section default_config name _ merged_config = merged_config

unfoldable pub load_sections : Fields → Fields → Fields → Fields
unfolding load_section
load_sections default_config end merged_config = merged_config
load_sections default_config (field name section config) merged_config =
    load_sections default_config config (load_section default_config name section merged_config)

unfoldable pub merge_config : Fields → Fields
unfolding default_section load_sections
merge_config config =
    let default_config = default_section (Yaml.get "default" config) in
    load_sections default_config config (field "default" (dict default_config) end)

pub data Loaded : Type 0 where
  exits : ℕ → Loaded
  loaded : Fields → Loaded

unfoldable pub load_config : EmailEnv → Option Value → Loaded
unfolding merge_config apply_email_env_overrides
load_config env (some (dict config)) = loaded (merge_config (apply_email_env_overrides env config))
load_config env _ = exits 1

module _ (lib : CronLib) (now : String → ℕ) where
  -- a job's constructor, which reads the clock for the job's first run (`now` of the job's id)
  unfoldable pub schedule_job :
      CrawlerClass → CrawlerJobConfig lib.Cron → List String → ScheduledCrawlerJob lib.Cron
  schedule_job crawler_class c lock_keys = record {
    crawler_name = c.crawler_name;
    job_name = c.job_name;
    crawler_class = crawler_class;
    config = c.config;
    schedule = c.schedule;
    lock_keys = lock_keys;
    next_run_time = lib.next c.schedule (now (job_id_of c.crawler_name c.job_name));
  }

  -- the loop over a crawler's jobs; `none` where the lock keys raise
  unfoldable pub schedule_enabled :
      CrawlerClass → List (CrawlerJobConfig lib.Cron) → Option (List (ScheduledCrawlerJob lib.Cron))
  unfolding schedule_job
  schedule_enabled crawler_class [] = some []
  schedule_enabled crawler_class (c ∷ configs) =
      let rest = schedule_enabled crawler_class configs in
      if enabled c
      then elim (get_job_lock_keys c.crawler_name c.config (some crawler_class)) [
        | none ↦ none
        | some lock_keys ↦ Option.map (◌∷◌ (schedule_job crawler_class c lock_keys)) rest
      ]
      else rest

  -- the body of the loop for a crawler whose class is there; a section that is no mapping raises
  unfoldable pub schedule_crawler :
      String → CrawlerClass → Value → Option (List (ScheduledCrawlerJob lib.Cron))
  unfolding schedule_enabled
  schedule_crawler crawler_name crawler_class (dict config) =
      schedule_enabled crawler_class (expand_crawler_job_configs lib crawler_name config)
  schedule_crawler crawler_name crawler_class _ = none

  -- one crawler: skipped with no section, or where its class does not load
  unfoldable pub schedule_available :
      (String → Option CrawlerClass)
      → Fields
      → String
      → Option (List (ScheduledCrawlerJob lib.Cron))
  unfolding schedule_crawler
  schedule_available load_class config crawler_name = elim (Yaml.get crawler_name config) [
    | none ↦ some []
    | some section ↦ elim (load_class crawler_name) [
      | none ↦ some []
      | some crawler_class ↦ schedule_crawler crawler_name crawler_class section
    ]
  ]

  unfoldable pub get_scheduled_jobs :
      (String → Option CrawlerClass)
      → Fields
      → List String
      → Option (List (ScheduledCrawlerJob lib.Cron))
  unfolding schedule_available
  get_scheduled_jobs load_class config [] = some []
  get_scheduled_jobs load_class config (crawler_name ∷ available) =
      elim (schedule_available load_class config crawler_name) [
        | none ↦ none
        | some jobs ↦ Option.map (◌++◌ jobs) (get_scheduled_jobs load_class config available)
      ]
