-- ===== src/Scheduler/ConfigTests.antt =====
-- The theorems on merging, loading and expanding a configuration at a concrete file.
use native.Mathlib.Nat.{le-add_right}
use open_energy_data_server.Common.{
  ℕ, ◌+◌, ◌≡◌, ◌↔◌, refl, String, true, false, Option, none, some, [], ◌∷◌,
}
use open_energy_data_server.Yaml.{
  Value, bool, int, text, list, dict, nil, cons, Fields, end, field, get, has, put, without,
}
use open_energy_data_server.Yaml.Merge.{get_crawler_config_with_defaults}
use open_energy_data_server.Yaml.Merge.Overlay.{Overlaid, AllUnique, merge-Overlaid}
use open_energy_data_server.Scheduler.Cron.{CronLib}
use open_energy_data_server.Scheduler.Job.{
  CrawlerClass, CrawlerJobConfig, ScheduledCrawlerJob, enabled,
}
use open_energy_data_server.Scheduler.Expand.{
  with_job_names, expand_jobs, expand_crawler_job_configs, get_job_lock_keys,
}
use open_energy_data_server.Scheduler.Expand.Laws.{job_named, expected_job, expand_jobs-eq-expected}
use open_energy_data_server.Scheduler.Load.{get_scheduled_jobs}
use open_energy_data_server.Scheduler.JobThread.{
  ThreadEnd, finishes, returned, run_scripts, post_run, thread_func, AllStart, thread_func_finishes,
}

abbrev parse_period : Option Value → Option ℕ
parse_period (some (int n)) = some n
parse_period _ = none

abbrev periodic : CronLib
periodic = record {
  Cron = ℕ;
  parse = parse_period;
  next = λ period ref. ref + period;
  next_from = λ period ref. le-add_right ref period;
}

abbrev defaults : Fields
defaults = field "enable" (bool false) (
    field "email"
      (dict (field "mailhost" (text "mail.example") (field "subject" (text "OEDS") end))) end)

-- two jobs, one of them with no schedule of its own
abbrev smard_jobs : Fields
smard_jobs =
    field "daily" (dict (field "schedule" (int 86400) end))
      (field "manual" (dict (field "schedule" (text "never") end)) end)

abbrev smard_section : Fields
smard_section =
    field "enable" (bool true) (
      field "email" (dict (field "subject" (text "SMARD") end))
        (field "jobs" (dict smard_jobs) end))

abbrev config_file : Fields
config_file =
    field "default" (dict defaults)
      (field "smard" (dict smard_section) (field "eex" (text "off") end))

merge-Overlaid_example :
    Overlaid
      (get "email" defaults)
      (get "email" smard_section)
      (get "email" (get_crawler_config_with_defaults defaults smard_section))
unfolding has AllUnique
merge-Overlaid_example = merge-Overlaid defaults smard_section "email" (
  refl,
  tt,
  (refl, (refl, tt, tt), (refl, (refl, (refl, tt, tt), (refl, (refl, tt, tt), tt)), tt)),
)

-- the nested mapping keeps the default's host and takes the crawler's subject
merged_email :
    get "email" (get_crawler_config_with_defaults defaults smard_section)
    ≡ some (dict (field "mailhost" (text "mail.example") (field "subject" (text "SMARD") end)))
unfolding get get_crawler_config_with_defaults put
merged_email = refl

expand_jobs-eq-expected_example :
    job_named periodic "manual"
      (expand_jobs periodic "smard" (without "jobs" smard_section) smard_jobs)
    ≡ expected_job periodic "smard"
        (without "jobs" smard_section)
        "manual"
        (get "manual" smard_jobs)
unfolding has
expand_jobs-eq-expected_example =
    expand_jobs-eq-expected periodic "smard" "manual" (without "jobs" smard_section) smard_jobs
      (refl, (refl, tt))

abbrev daily_config : CrawlerJobConfig ℕ
daily_config = record {
  crawler_name = "smard";
  job_name = "daily";
  config = field "enable" (bool true) (
      field "email" (dict (field "subject" (text "SMARD") end)) (
        field "schedule" (int 86400) (
          field "_scheduler_job_name" (text "daily")
            (field "_scheduler_job_id" (text "smard:daily") end))));
  schedule = 86400;
}

daily_expected :
    expected_job periodic "smard"
      (without "jobs" smard_section)
      "daily"
      (some (dict (field "schedule" (int 86400) end)))
    ≡ some daily_config
unfolding expected_job without with_job_names get_crawler_config_with_defaults get put
daily_expected = refl

abbrev smard_class : CrawlerClass
smard_class = record { name = "SmardCrawler"; data_item_table_map = none }

abbrev load_class : String → Option CrawlerClass
load_class name = some smard_class

abbrev daily_job : ScheduledCrawlerJob ℕ
daily_job = record {
  crawler_name = "smard";
  job_name = "daily";
  crawler_class = smard_class;
  config = daily_config.config;
  schedule = 86400;
  lock_keys = "crawler:smard" ∷ [];
  next_run_time = 86405;
}

scheduled :
    get_scheduled_jobs periodic
      (λ _. 5)
      load_class
      (field "smard" (dict smard_section) end)
      ("eview" ∷ "smard" ∷ [])
    ≡ some (daily_job ∷ [])
unfolding get_scheduled_jobs expand_crawler_job_configs get_crawler_config_with_defaults get put
    without enabled get_job_lock_keys
scheduled = refl

-- a script is started if it is a text
abbrev start_script : Value → Option ℕ
start_script (text s) = some 0
start_script _ = none

abbrev scripts_config : Fields
scripts_config = field "post_run_scripts" (list (cons (text "a.py") (cons (int 3) nil))) end

thread_func_finishes_example :
    (thread_func start_script returned true scripts_config ≡ finishes)
    ↔ AllStart start_script (cons (text "a.py") (cons (int 3) nil))
unfolding get
thread_func_finishes_example =
    thread_func_finishes start_script scripts_config (text "a.py") (cons (int 3) nil) refl

-- the second script is no text, so that `on_finish` is not called
dead_thread : thread_func start_script returned true scripts_config ≡ ThreadEnd.dies
unfolding thread_func post_run run_scripts get
dead_thread = refl
