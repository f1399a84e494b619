-- ===== src/Scheduler/Job.antt =====
-- `CrawlerJobConfig`, `ScheduledCrawlerJob` and `QueuedCrawlerJob` of crawler_scheduler.py.
-- `Cron` is the schedule type of the package cron_converter, a parameter; a `datetime` is a number
-- of microseconds. `CrawlerClass` keeps of a crawler's class what the scheduler reads of it.
use Prim.Native.Nat.{Ordering}
use Prim.Native.String.{compare}
use open_energy_data_server.Common.{
  ℕ, String, Bool, true, false, ◌||◌, ◌&&◌, Option, some, List, ltb, ◌==◌, str_eq, if◌then◌else◌,
}
use open_energy_data_server.Common.Dict.{Dict}
use open_energy_data_server.Common.Text.{◌<>◌}
use open_energy_data_server.Yaml
use open_energy_data_server.Yaml.{Value, Fields, bool}

pub record CrawlerClass : Type 0 where
  pub name : String
  pub data_item_table_map : Option (Dict String)

module _ (Cron : Type 0) where
  pub record CrawlerJobConfig : Type 0 where
    pub crawler_name : String
    pub job_name : String
    pub config : Fields
    pub schedule : Cron

  pub record ScheduledCrawlerJob : Type 0 where
    pub crawler_name : String
    pub job_name : String
    pub crawler_class : CrawlerClass
    pub config : Fields
    pub schedule : Cron
    pub lock_keys : List String
    pub next_run_time : ℕ

  pub record QueuedCrawlerJob : Type 0 where
    pub job : ScheduledCrawlerJob
    pub scheduled_for : ℕ
    pub enqueued_at : ℕ

-- `f"{crawler_name}:{job_name}"`
unfoldable pub job_id_of : String → String → String
job_id_of crawler_name job_name = crawler_name <> ":" <> job_name

unfoldable pub display_name_of : String → String → String
unfolding job_id_of
display_name_of crawler_name job_name =
    if str_eq job_name "default" then crawler_name else job_id_of crawler_name job_name

-- `value is True`
unfoldable pub is_true : Option Value → Bool
is_true (some (bool b)) = b
is_true _ = false

-- `value is not False`, where a missing key reads as `True`
unfoldable pub is_not_false : Option Value → Bool
is_not_false (some (bool b)) = b
is_not_false _ = true

module _ {Cron : Type 0} where
  abbrev pub job_id : ScheduledCrawlerJob Cron → String
  job_id j = job_id_of j.crawler_name j.job_name

  abbrev pub display_name : ScheduledCrawlerJob Cron → String
  display_name j = display_name_of j.crawler_name j.job_name

  unfoldable pub enabled : CrawlerJobConfig Cron → Bool
  unfolding is_true
  enabled c = is_true (Yaml.get "enable" c.config)

  unfoldable pub run_post_scripts : ScheduledCrawlerJob Cron → Bool
  unfolding is_not_false
  run_post_scripts j = is_not_false (Yaml.get "run_post_scripts" j.config)

  -- `(a.next_run_time, a.display_name) < (b.next_run_time, b.display_name)`
  unfoldable pub job_lt : ScheduledCrawlerJob Cron → ScheduledCrawlerJob Cron → Bool
  job_lt a b =
      ltb a.next_run_time b.next_run_time
      || (a.next_run_time == b.next_run_time && text_lt (display_name a) (display_name b))
    where
      text_lt : String → String → Bool
      text_lt s t = elim (compare s t) [ Ordering.lt ↦ true | _ ↦ false ]
