-- ===== src/Admin/Jobs.antt =====
-- `_validate_crawler_jobs` of crawler_admin/config_service.py. A job's name is a text. The cron
-- library is an argument, as are the text of a cron error and Python's `int` of a text or a real
-- number (`none` where it is below 0 or raises what the code catches).
pub mod Agreement
use open_energy_data_server.Common.{
  ℕ, String, Bool, true, false, not, Option, none, some, List, [], ◌∷◌, ◌++◌, leb, ◌||◌, str_eq,
  if◌then◌else◌,
}
use open_energy_data_server.Common.Strip.{strip, is_empty}
use open_energy_data_server.Common.Text.{◌<>◌, decimal}
use open_energy_data_server.Yaml
use open_energy_data_server.Yaml.{
  Value, null, bool, int, real, text, dict, Fields, end, field, without,
}
use open_energy_data_server.Yaml.Merge.{get_crawler_config_with_defaults}
use open_energy_data_server.Scheduler.Cron.{CronLib}
use open_energy_data_server.Admin.Issues.{ValidationIssue, error_in, warning_in}
use open_energy_data_server.Admin.Preview.{CronErrors, build_cron_preview}

-- `merged = dict(default_config)` and the loop over `crawler_config.items()`: the scheduler's loop
abbrev pub merge_with_defaults : Fields → Fields → Fields
merge_with_defaults = get_crawler_config_with_defaults

-- `not isinstance(value, str) or not value.strip()`
unfoldable pub is_no_text : Option Value → Bool
unfolding strip is_empty
is_no_text (some (text s)) = is_empty (strip s)
is_no_text _ = true

-- `not isinstance(value, bool)`
unfoldable pub is_no_bool : Option Value → Bool
is_no_bool (some (bool _)) = false
is_no_bool _ = true

unfoldable pub error_unless : Bool → String → String → List ValidationIssue
unfolding error_in
error_unless true scope message = []
error_unless false scope message = error_in scope message ∷ []

module _ (int_of : String → Option ℕ) where
  -- `int(window_months)`, and 0 where it raises
  unfoldable pub parsed_months : Value → ℕ
  parsed_months (bool true) = 1
  parsed_months (int n) = n
  parsed_months (real r) = elim (int_of r) [ none ↦ 0 | some n ↦ n ]
  parsed_months (text s) = elim (int_of s) [ none ↦ 0 | some n ↦ n ]
  parsed_months _ = 0

  unfoldable pub window_issues : String → Option Value → List ValidationIssue
  unfolding parsed_months error_unless
  window_issues job_scope none = []
  window_issues job_scope (some null) = []
  window_issues job_scope (some window_months) =
      error_unless (leb 1 (parsed_months window_months)) job_scope
        "'fms_package_window_months' must be an integer greater than or equal to 1."

unfoldable pub write_mode_issues : String → Option Value → List ValidationIssue
unfolding warning_in
write_mode_issues job_scope none = []
write_mode_issues job_scope (some null) = []
write_mode_issues job_scope (some (text write_mode)) =
    if str_eq write_mode "full_upsert"
    then []
    else warning_in job_scope
        "Unknown ENTSO-E FMS package write mode; supported value is 'full_upsert'."
      ∷ []
write_mode_issues job_scope (some _) =
    warning_in job_scope "Unknown ENTSO-E FMS package write mode; supported value is 'full_upsert'."
    ∷ []

module _ (lib : CronLib) (exception : CronErrors lib) where
  -- `preview = build_cron_preview(…)` and the issue that it makes, after `prefix`
  unfoldable pub preview_issues : String → String → Option Value → List ValidationIssue
  unfolding error_in build_cron_preview
  preview_issues scope prefix schedule = elim (build_cron_preview lib exception schedule) [
    | none ↦ []
    | some message ↦ error_in scope (prefix <> message) ∷ []
  ]

  unfoldable pub job_schedule_issues : String → Option Value → List ValidationIssue
  unfolding is_no_text error_in preview_issues
  job_schedule_issues job_scope job_schedule =
      if is_no_text job_schedule
      then error_in job_scope "Crawler job must have an effective CRON 'schedule'." ∷ []
      else preview_issues job_scope "Invalid job CRON schedule: " job_schedule

  module _ (int_of : String → Option ℕ) where
    -- the checks of one effective configuration
    unfoldable pub effective_job_issues : String → String → Fields → List ValidationIssue
    effective_job_issues crawler_name job_scope effective_job_config =
        job_schedule_issues job_scope (Yaml.get "schedule" effective_job_config)
        ++ error_unless (not (is_no_bool (Yaml.get "enable" effective_job_config))) job_scope
            "Crawler job must have an effective boolean 'enable' value."
        ++ (if str_eq crawler_name "entsoe_fms"
            then window_issues int_of job_scope
                (Yaml.get "fms_package_window_months" effective_job_config)
              ++ write_mode_issues job_scope
                  (Yaml.get "fms_package_write_mode" effective_job_config)
            else [])

    unfoldable pub job_issues : String → Fields → String → Value → List ValidationIssue
    unfolding effective_job_issues error_in
    job_issues crawler_name base_config job_name (dict job_config) =
        effective_job_issues crawler_name (crawler_name <> ":" <> job_name)
          (merge_with_defaults base_config job_config)
    job_issues crawler_name base_config job_name _ =
        error_in (crawler_name <> ":" <> job_name) "Crawler job configuration must be a mapping."
        ∷ []

    unfoldable pub jobs_issues : String → Fields → Fields → List ValidationIssue
    unfolding job_issues
    jobs_issues crawler_name base_config end = []
    jobs_issues crawler_name base_config (field job_name job_config jobs) =
        job_issues crawler_name base_config job_name job_config
        ++ jobs_issues crawler_name base_config jobs

    unfoldable pub validate_crawler_jobs : String → Fields → Value → List ValidationIssue
    unfolding jobs_issues error_in warning_in
    validate_crawler_jobs crawler_name merged_config (dict end) =
        warning_in crawler_name
          "The 'jobs' mapping is empty; the crawler will fall back to its legacy schedule."
        ∷ []
    validate_crawler_jobs crawler_name merged_config (dict (field job_name job_config jobs)) =
        jobs_issues crawler_name (without "jobs" merged_config) (field job_name job_config jobs)
    validate_crawler_jobs crawler_name merged_config _ =
        error_in crawler_name "The 'jobs' value must be a mapping of named scheduler jobs." ∷ []
