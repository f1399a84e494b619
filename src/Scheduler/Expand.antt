-- ===== src/Scheduler/Expand.antt =====
-- How crawler_scheduler.py turns a crawler's configuration into jobs: `_parse_job_schedule`,
-- `expand_crawler_job_configs` and `get_job_lock_keys`. Log messages are not modelled.
pub mod Laws
use mathlib.Core.Option
use open_energy_data_server.Common.{
  ℕ, String, Bool, true, false, Option, none, some, List, [], ◌∷◌, ◌++◌, ◌+◌, str_eq, if◌then◌else◌,
}
use open_energy_data_server.Common.Dict
use open_energy_data_server.Common.Dict.{Dict}
use open_energy_data_server.Yaml
use open_energy_data_server.Yaml.{
  Value, null, bool, int, negative, real, text, list, dict, Items, nil, cons, Fields, end, field,
  put, without,
}
use open_energy_data_server.Yaml.Merge.{get_crawler_config_with_defaults}
use open_energy_data_server.Scheduler.Cron.{CronLib}
use open_energy_data_server.Scheduler.Job.{CrawlerClass, CrawlerJobConfig, job_id_of}
use open_energy_data_server.Common.Text.{◌<>◌, decimal}

-- `effective_config["_scheduler_job_name"] = …` and `…["_scheduler_job_id"] = …`
unfoldable pub with_job_names : String → String → Fields → Fields
unfolding job_id_of
with_job_names crawler_name job_name config =
    put "_scheduler_job_id" (text (job_id_of crawler_name job_name))
      (put "_scheduler_job_name" (text job_name) config)

module _ (lib : CronLib) where
  -- The second part is the configuration, which a schedule that does not parse disables.
  unfoldable pub parse_job_schedule : Fields → Option lib.Cron × Fields
  parse_job_schedule config = elim (lib.parse (Yaml.get "schedule" config)) [
    | none ↦ (none, put "enable" (bool false) config)
    | some schedule ↦ (some schedule, config)
  ]

  unfoldable pub scheduled_config :
      String → String → Option lib.Cron × Fields → List (CrawlerJobConfig lib.Cron)
  scheduled_config crawler_name job_name (none, config) = []
  scheduled_config crawler_name job_name (some schedule, config) =
      record {
        crawler_name = crawler_name;
        job_name = job_name;
        config = config;
        schedule = schedule;
      }
      ∷ []

  -- one entry of `jobs`: none or one job
  unfoldable pub expand_job : String → Fields → String → Value → List (CrawlerJobConfig lib.Cron)
  unfolding with_job_names parse_job_schedule scheduled_config
  expand_job crawler_name base_config job_name (dict job_config) =
      scheduled_config crawler_name job_name (
        parse_job_schedule (
          with_job_names crawler_name job_name
            (get_crawler_config_with_defaults base_config job_config)))
  expand_job crawler_name base_config job_name _ = []

  unfoldable pub expand_jobs : String → Fields → Fields → List (CrawlerJobConfig lib.Cron)
  unfolding expand_job
  expand_jobs crawler_name base_config end = []
  expand_jobs crawler_name base_config (field job_name job_config jobs) =
      expand_job crawler_name base_config job_name job_config
      ++ expand_jobs crawler_name base_config jobs

  unfoldable pub expand_default : String → Fields → List (CrawlerJobConfig lib.Cron)
  unfolding with_job_names parse_job_schedule scheduled_config
  expand_default crawler_name crawler_config =
      scheduled_config crawler_name "default"
        (parse_job_schedule (with_job_names crawler_name "default" (without "jobs" crawler_config)))

  -- the test `isinstance(jobs, dict) and jobs`
  unfoldable pub expand_by : String → Fields → Option Value → List (CrawlerJobConfig lib.Cron)
  unfolding expand_jobs expand_default
  expand_by crawler_name crawler_config (some (dict (field job_name job_config jobs))) =
      expand_jobs crawler_name (without "jobs" crawler_config) (field job_name job_config jobs)
  expand_by crawler_name crawler_config _ = expand_default crawler_name crawler_config

  unfoldable pub expand_crawler_job_configs : String → Fields → List (CrawlerJobConfig lib.Cron)
  unfolding expand_by
  expand_crawler_job_configs crawler_name crawler_config =
      expand_by crawler_name crawler_config (Yaml.get "jobs" crawler_config)

-- `data_item_table_map.get(data_item, data_item)` of a text
unfoldable pub table_of : Dict String → String → String
table_of tables data_item = elim (Dict.get data_item tables) [
  | none ↦ data_item
  | some table ↦ table
]

-- `f"{…}"` of a value that can be the key of a dict; a list or a dict cannot
unfoldable pub hashed_text : Value → Option String
unfolding decimal
hashed_text null = some "None"
hashed_text (bool true) = some "True"
hashed_text (bool false) = some "False"
hashed_text (int n) = some (decimal n)
hashed_text (negative n) = some ("-" <> decimal (n + 1))
hashed_text (real r) = some r
hashed_text (text s) = some s
hashed_text (list xs) = none
hashed_text (dict fs) = none

-- `data_item_table_map.get(data_item, data_item)`, as a text; only a text can be a key of the map
unfoldable pub table_name : Dict String → Value → Option String
unfolding table_of hashed_text
table_name tables (text data_item) = some (table_of tables data_item)
table_name tables item = hashed_text item

-- `none` is the `TypeError` of an item that cannot be looked up
unfoldable pub data_item_locks : String → Dict String → Items → Option (List String)
unfolding table_name
data_item_locks crawler_name tables nil = some []
data_item_locks crawler_name tables (cons item items) = elim (table_name tables item) [
  | none ↦ none
  | some table ↦
      Option.map (◌∷◌ (crawler_name <> ":" <> table)) (data_item_locks crawler_name tables items)
]

unfoldable pub table_locks : String → Dict String → List String
table_locks crawler_name [] = []
table_locks crawler_name ((data_item, table) ∷ tables) =
    (crawler_name <> ":" <> table) ∷ table_locks crawler_name tables

-- `getattr(crawler_class, "DATA_ITEM_TABLE_MAP", {}) if crawler_class else {}`
unfoldable pub tables_of_class : Option CrawlerClass → Dict String
tables_of_class none = []
tables_of_class (some c) = elim c.data_item_table_map [ none ↦ [] | some tables ↦ tables ]

-- the locks of the crawler entsoe_fms, by `target_data_items` and the class's table map
unfoldable pub fms_locks : String → Option Value → Dict String → Option (List String)
unfolding data_item_locks table_locks
fms_locks crawler_name (some (list (cons item items))) tables =
    data_item_locks crawler_name tables (cons item items)
fms_locks crawler_name _ [] = some (("crawler:" <> crawler_name) ∷ [])
fms_locks crawler_name _ (entry ∷ tables) = some (table_locks crawler_name (entry ∷ tables))

unfoldable pub get_job_lock_keys : String → Fields → Option CrawlerClass → Option (List String)
unfolding fms_locks tables_of_class
get_job_lock_keys crawler_name config crawler_class =
    if str_eq crawler_name "entsoe_fms"
    then fms_locks crawler_name (Yaml.get "target_data_items" config)
        (tables_of_class crawler_class)
    else some (("crawler:" <> crawler_name) ∷ [])
