-- ===== src/Admin/Validate.antt =====
-- `parse_yaml_text`, `validate_config_text` and `_validate_merged_crawler_config` of
-- crawler_admin/config_service.py. The parser of YAML is an argument. A top-level key that is no
-- text is not modelled.
pub mod Laws
use open_energy_data_server.Common.{
  ℕ, ◌+◌, String, Bool, true, false, not, Option, none, some, List, [], ◌∷◌, ◌++◌, ◌||◌, str_eq,
  if◌then◌else◌,
}
use open_energy_data_server.Common.Strip.{strip, is_empty}
use open_energy_data_server.Common.Text.{◌<>◌, decimal}
use open_energy_data_server.Common.Sets.{contains}
use open_energy_data_server.Yaml
use open_energy_data_server.Yaml.{Value, null, bool, text, list, dict, Fields, end, field}
use open_energy_data_server.Scheduler.Cron.{CronLib}
use open_energy_data_server.Admin.Preview.{CronErrors}
use open_energy_data_server.Admin.Issues.{
  Level, error, ValidationIssue, ValidationResult, has_errors, error_in, warning_in,
}
use open_energy_data_server.Admin.Jobs.{
  merge_with_defaults, is_no_text, is_no_bool, error_unless, preview_issues, validate_crawler_jobs,
}

-- What `yaml.safe_load` does: it returns a value or raises, with or without a problem mark.
pub data Parsed : Type 0 where
  value : Value → Parsed
  marked_error : String → Option (ℕ × ℕ) → Parsed
  yaml_error : String → Parsed

unfoldable pub location_of : Option (ℕ × ℕ) → Option String
unfolding decimal
location_of none = none
location_of (some (line, column)) =
    some ("Line " <> decimal (line + 1) <> ", column " <> decimal (column + 1))

unfoldable pub refused : ValidationIssue → ValidationResult
refused issue = record { data_of = none; issues = issue ∷ [] }

unfoldable pub parse_yaml_text : Parsed → ValidationResult
unfolding location_of refused error_in strip
parse_yaml_text (marked_error problem mark) = refused (record {
  level = error;
  message = strip problem;
  scope = "global";
  location = location_of mark;
})
parse_yaml_text (yaml_error message) = refused (error_in "global" (strip message))
parse_yaml_text (value null) = refused (error_in "global" "The YAML document is empty.")
parse_yaml_text (value (dict parsed)) = record { data_of = some parsed; issues = [] }
parse_yaml_text (value _) =
    refused (error_in "global" "The top-level YAML document must be a mapping.")

-- `default_config` and the issue of the section `default`
unfoldable pub checked_default : Option Value → Fields × List ValidationIssue
unfolding error_in
checked_default none = (end, error_in "global" "Missing required top-level 'default' section." ∷ [])
checked_default (some null) =
    (end, error_in "global" "Missing required top-level 'default' section." ∷ [])
checked_default (some (dict default_config)) = (default_config, [])
checked_default (some _) = (
  end,
  error_in "default" "The 'default' section must be a mapping of shared crawler settings." ∷ [],
)

-- `value is None or isinstance(value, list)`
unfoldable pub is_no_list : Option Value → Bool
is_no_list none = false
is_no_list (some null) = false
is_no_list (some (list _)) = false
is_no_list (some _) = true

-- the issue of a `description` that is no text
unfoldable pub description_issues : String → Option Value → List ValidationIssue
unfolding warning_in
description_issues crawler_name none = []
description_issues crawler_name (some (text _)) = []
description_issues crawler_name (some _) =
    warning_in crawler_name "The crawler description should be a string." ∷ []

module _ (lib : CronLib) (exception : CronErrors lib) where
  unfoldable pub schedule_issues : String → Option Value → List ValidationIssue
  unfolding error_in preview_issues
  schedule_issues crawler_name none =
      error_in crawler_name
        "Missing effective 'schedule'. Add it either in the crawler section or in 'default'."
      ∷ []
  schedule_issues crawler_name (some null) =
      error_in crawler_name
        "Missing effective 'schedule'. Add it either in the crawler section or in 'default'."
      ∷ []
  schedule_issues crawler_name (some (text schedule)) =
      preview_issues lib exception crawler_name "Invalid CRON schedule: " (some (text schedule))
  schedule_issues crawler_name (some _) =
      error_in crawler_name "The effective 'schedule' must be a CRON string." ∷ []

  module _ (int_of : String → Option ℕ) where
    -- `if jobs_value is not None: _validate_crawler_jobs(…)`
    unfoldable pub jobs_value_issues : String → Fields → Option Value → List ValidationIssue
    unfolding validate_crawler_jobs
    jobs_value_issues crawler_name merged_config none = []
    jobs_value_issues crawler_name merged_config (some null) = []
    jobs_value_issues crawler_name merged_config (some jobs_value) =
        validate_crawler_jobs lib exception int_of crawler_name merged_config jobs_value

    unfoldable pub validate_merged_crawler_config : String → Fields → Fields → List ValidationIssue
    unfolding schedule_issues jobs_value_issues is_no_text is_no_bool is_no_list error_unless
        description_issues
    validate_merged_crawler_config crawler_name crawler_config merged_config =
        schedule_issues crawler_name (Yaml.get "schedule" merged_config)
        ++ jobs_value_issues crawler_name merged_config (Yaml.get "jobs" crawler_config)
        ++ error_unless (not (is_no_bool (Yaml.get "enable" merged_config))) crawler_name
            "The effective 'enable' value must be true or false."
        ++ error_unless (not (is_no_text (Yaml.get "schema_name" merged_config))) crawler_name
            "Missing effective 'schema_name'."
        ++ error_unless (not (is_no_text (Yaml.get "database_uri" merged_config))) crawler_name
            "Missing effective 'database_uri'."
        ++ error_unless (not (is_no_list (Yaml.get "post_run_scripts" merged_config))) crawler_name
            "The effective 'post_run_scripts' value must be a list."
        ++ description_issues crawler_name (Yaml.get "description" crawler_config)

    -- one section of the file that is not `default`
    unfoldable pub section_issues : List String → Fields → String → Value → List ValidationIssue
    unfolding validate_merged_crawler_config contains error_in warning_in
    section_issues available default_config key (dict crawler_config) =
        (if contains key available
          then []
          else warning_in key "No matching crawler module was found in crawler/." ∷ [])
        ++ validate_merged_crawler_config key crawler_config
            (merge_with_defaults default_config crawler_config)
    section_issues available default_config key _ =
        error_in key "Crawler configuration must be a mapping." ∷ []

    unfoldable pub sections_issues : List String → Fields → Fields → List ValidationIssue
    unfolding section_issues
    sections_issues available default_config end = []
    sections_issues available default_config (field key section rest) =
        let issues = sections_issues available default_config rest in
        if str_eq key "default"
        then issues
        else section_issues available default_config key section ++ issues

    unfoldable pub validate_config : List String → List ValidationIssue → Fields → ValidationResult
    unfolding checked_default sections_issues
    validate_config available issues config =
        let (default_config, default_issues) = checked_default (Yaml.get "default" config) in
        record {
          data_of = some config;
          issues = issues ++ default_issues ++ sections_issues available default_config config;
        }

    -- `parsed_result.has_errors or parsed_result.data is None`
    unfoldable pub validate_parsed : List String → Bool → ValidationResult → ValidationResult
    unfolding validate_config
    validate_parsed available true parsed = parsed
    validate_parsed available false parsed = elim parsed.data_of [
      | none ↦ parsed
      | some config ↦ validate_config available parsed.issues config
    ]

    unfoldable pub validate_config_text : List String → Parsed → ValidationResult
    unfolding parse_yaml_text validate_parsed has_errors
    validate_config_text available yaml =
        let parsed = parse_yaml_text yaml in validate_parsed available (has_errors parsed) parsed
