-- ===== src/Admin/Tests.antt =====
-- The admin's checks at a concrete file.
use native.Mathlib.Nat.{le-add_right}
use open_energy_data_server.Common.{ℕ, ◌+◌, ◌≡◌, refl, String, true, Option, none, some, [], ◌∷◌}
use open_energy_data_server.Common.Sets.{contains}
use open_energy_data_server.Yaml.{
  Value, bool, int, text, dict, Fields, end, field, get, has, put, without,
}
use open_energy_data_server.Yaml.Merge.{get_crawler_config_with_defaults}
use open_energy_data_server.Scheduler.Cron.{CronLib}
use open_energy_data_server.Scheduler.Job.{CrawlerJobConfig}
use open_energy_data_server.Scheduler.Expand.{expand_crawler_job_configs}
use open_energy_data_server.Scheduler.Expand.Laws.{job_named}
use open_energy_data_server.Admin.Issues.{any_error, is_error, has_errors, error_in}
use open_energy_data_server.Admin.Preview.{CronErrors, build_cron_preview, parse_error}
use open_energy_data_server.Admin.Jobs.{
  merge_with_defaults, is_no_text, is_no_bool, error_unless, parsed_months, window_issues,
  write_mode_issues, preview_issues, job_schedule_issues, effective_job_issues, job_issues,
  jobs_issues, validate_crawler_jobs,
}
use open_energy_data_server.Admin.Jobs.Agreement.{IgnoresSpaces, accepted_jobs_expand}
use open_energy_data_server.Admin.Validate.{
  parse_yaml_text, checked_default, is_no_list, description_issues, schedule_issues,
  jobs_value_issues, validate_merged_crawler_config, section_issues, sections_issues,
  validate_config, validate_parsed, validate_config_text,
}
use open_energy_data_server.Admin.Validate.Laws.{IsUsable, accepted_file_IsUsable}

-- a library whose only schedule is a text
abbrev parse_text : Option Value → Option ℕ
parse_text (some (text s)) = some 60
parse_text _ = none

abbrev minutely : CronLib
minutely = record {
  Cron = ℕ;
  parse = parse_text;
  next = λ period ref. ref + period;
  next_from = λ period ref. le-add_right ref period;
}

abbrev problem : CronErrors minutely
problem = record { of_parse = λ s. s; of_next = λ period. none }

abbrev no_int : String → Option ℕ
no_int s = none

minutely-IgnoresSpaces : IgnoresSpaces minutely problem
minutely-IgnoresSpaces s c h = (60, refl)

abbrev fms_jobs : Fields
fms_jobs = field "hot" (dict (field "fms_package_window_months" (int 3) end)) end

abbrev fms_section : Fields
fms_section = field "jobs" (dict fms_jobs) end

abbrev defaults : Fields
defaults = field "schedule" (text "*") (
    field "enable" (bool true)
      (field "schema_name" (text "fms") (field "database_uri" (text "db") end)))

abbrev merged : Fields
merged = field "jobs" (dict fms_jobs) defaults

accepted_jobs_expand_example :
    (c : CrawlerJobConfig ℕ) × (job_named minutely "hot"
        (expand_crawler_job_configs minutely "entsoe_fms" merged)
      ≡ some c)
unfolding has get any_error is_error error_in validate_crawler_jobs jobs_issues job_issues
    effective_job_issues job_schedule_issues preview_issues build_cron_preview parse_error
    is_no_text is_no_bool error_unless window_issues parsed_months write_mode_issues
    get_crawler_config_with_defaults put without
accepted_jobs_expand_example =
    accepted_jobs_expand minutely problem no_int "entsoe_fms" "hot" merged fms_jobs
      minutely-IgnoresSpaces refl (refl, tt) refl refl

abbrev file : Fields
file = field "default" (dict defaults) (field "entsoe_fms" (dict fms_section) end)

accepted_file_IsUsable_example :
    (default_config : Fields) × (get "default" file ≡ some (dict default_config))
    × (crawler_config : Fields) × (dict fms_section ≡ dict crawler_config)
    × IsUsable minutely problem (merge_with_defaults default_config crawler_config)
unfolding has get any_error is_error has_errors error_in validate_crawler_jobs jobs_issues
    job_issues effective_job_issues job_schedule_issues preview_issues build_cron_preview
    parse_error is_no_text is_no_bool error_unless window_issues parsed_months write_mode_issues
    get_crawler_config_with_defaults put without validate_config_text parse_yaml_text
    validate_parsed validate_config checked_default sections_issues section_issues
    validate_merged_crawler_config schedule_issues jobs_value_issues is_no_list description_issues
    contains
accepted_file_IsUsable_example =
    accepted_file_IsUsable minutely problem no_int ("entsoe_fms" ∷ []) file "entsoe_fms"
      (dict fms_section) minutely-IgnoresSpaces refl refl refl
