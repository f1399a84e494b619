-- ===== src/Admin/Validate/Laws.antt =====
-- What a configuration file has that the admin finds no error in.
use open_energy_data_server.Common.{
  ℕ, String, ◌≡◌, refl, true, false, Option, none, some, List, [], ◌++◌, arith, str_eq, eq_iff, inl,
  inr, Bool-cases, not, Bool, ◌⊎◌,
}
use open_energy_data_server.Common.Strip.{strip, is_empty}
use open_energy_data_server.Yaml.{
  Value, null, bool, int, negative, real, text, list, dict, Fields, end, field, get,
}
use open_energy_data_server.Scheduler.Cron.{CronLib}
use open_energy_data_server.Admin.Preview.{CronErrors}
use open_energy_data_server.Admin.Issues.{
  ValidationIssue, any_error, is_error, has_errors, error_in,
}
use open_energy_data_server.Admin.Jobs.{merge_with_defaults, is_no_text, is_no_bool, error_unless}
use open_energy_data_server.Admin.Jobs.Agreement.{
  no_error_left, no_error_right, refused_kind, IgnoresSpaces, preview-Parses,
}
use open_energy_data_server.Admin.Validate.{
  value, parse_yaml_text, checked_default, is_no_list, schedule_issues,
  validate_merged_crawler_config, section_issues, sections_issues, validate_config, validate_parsed,
  validate_config_text,
}

text-given :
    (v : Option Value)
    → is_no_text v ≡ false
    → (s : String) × (v ≡ some (text s)) × (is_empty (strip s) ≡ false)
unfolding is_no_text
text-given (some (text s)) h = (s, refl, h)
text-given none h = absurd (ground arith)
text-given (some null) h = absurd (ground arith)
text-given (some (bool _)) h = absurd (ground arith)
text-given (some (int _)) h = absurd (ground arith)
text-given (some (negative _)) h = absurd (ground arith)
text-given (some (real _)) h = absurd (ground arith)
text-given (some (list _)) h = absurd (ground arith)
text-given (some (dict _)) h = absurd (ground arith)

bool-given : (v : Option Value) → is_no_bool v ≡ false → (b : Bool) × (v ≡ some (bool b))
unfolding is_no_bool
bool-given (some (bool b)) h = (b, refl)
bool-given none h = absurd (ground arith)
bool-given (some null) h = absurd (ground arith)
bool-given (some (text _)) h = absurd (ground arith)
bool-given (some (int _)) h = absurd (ground arith)
bool-given (some (negative _)) h = absurd (ground arith)
bool-given (some (real _)) h = absurd (ground arith)
bool-given (some (list _)) h = absurd (ground arith)
bool-given (some (dict _)) h = absurd (ground arith)

unless-holds :
    (b : Bool) (scope message : String)
    → any_error (error_unless (not b) scope message) ≡ false
    → b ≡ false
unfolding error_unless any_error is_error error_in
unless-holds true scope message h = absurd (ground arith)
unless-holds false scope message h = refl

module _ (lib : CronLib) (exception : CronErrors lib) where
  -- An effective configuration that a crawler can run with.
  pub record IsUsable (merged : Fields) : Type 0 where
    pub schedule :
        (s : String) × (get "schedule" merged ≡ some (text s))
        × (c : lib.Cron) × (lib.parse (some (text s)) ≡ some c)
    pub enable : (b : Bool) × (get "enable" merged ≡ some (bool b))
    pub schema_name :
        (s : String) × (get "schema_name" merged ≡ some (text s)) × (is_empty (strip s) ≡ false)
    pub database_uri :
        (s : String) × (get "database_uri" merged ≡ some (text s)) × (is_empty (strip s) ≡ false)
    pub post_run_scripts : is_no_list (get "post_run_scripts" merged) ≡ false

  schedule-given :
      (key : String) (v : Option Value)
      → IgnoresSpaces lib exception
      → any_error (schedule_issues lib exception key v) ≡ false
      → (s : String) × (v ≡ some (text s)) × (c : lib.Cron) × (lib.parse (some (text s)) ≡ some c)
  unfolding schedule_issues
  schedule-given key (some (text s)) spaces h =
      let (c, q) = preview-Parses lib exception key "Invalid CRON schedule: " s spaces h in
      (s, refl, c, q)
  schedule-given key none spaces h = absurd (refused_kind _ _ h)
  schedule-given key (some null) spaces h = absurd (refused_kind _ _ h)
  schedule-given key (some (bool _)) spaces h = absurd (refused_kind _ _ h)
  schedule-given key (some (int _)) spaces h = absurd (refused_kind _ _ h)
  schedule-given key (some (negative _)) spaces h = absurd (refused_kind _ _ h)
  schedule-given key (some (real _)) spaces h = absurd (refused_kind _ _ h)
  schedule-given key (some (list _)) spaces h = absurd (refused_kind _ _ h)
  schedule-given key (some (dict _)) spaces h = absurd (refused_kind _ _ h)

  module _ (int_of : String → Option ℕ) where
    merged-IsUsable :
        (key : String) (crawler_config merged : Fields)
        → IgnoresSpaces lib exception
        → any_error (validate_merged_crawler_config lib exception int_of key crawler_config merged)
          ≡ false
        → IsUsable merged
    unfolding validate_merged_crawler_config
    merged-IsUsable key crawler_config merged spaces h =
        let h6 = no_error_left _ _ h in
        let h5 = no_error_left _ _ h6 in
        let h4 = no_error_left _ _ h5 in
        let h3 = no_error_left _ _ h4 in
        let h2 = no_error_left _ _ h3 in
        record {
          schedule = schedule-given key (get "schedule" merged) spaces (no_error_left _ _ h2);
          enable = bool-given (get "enable" merged) (unless-holds _ _ _ (no_error_right _ _ h3));
          schema_name =
              text-given (get "schema_name" merged) (unless-holds _ _ _ (no_error_right _ _ h4));
          database_uri =
              text-given (get "database_uri" merged) (unless-holds _ _ _ (no_error_right _ _ h5));
          post_run_scripts = unless-holds _ _ _ (no_error_right _ _ h6);
        }

    -- the section of a name that is not `default`, if the admin finds no error in it
    section-IsUsable :
        (available : List String) (default_config : Fields) (key : String) (v : Value)
        → IgnoresSpaces lib exception
        → any_error (section_issues lib exception int_of available default_config key v) ≡ false
        → (crawler_config : Fields) × (v ≡ dict crawler_config)
          × IsUsable (merge_with_defaults default_config crawler_config)
    unfolding section_issues
    section-IsUsable available default_config key (dict crawler_config) spaces h = (
      crawler_config,
      refl,
      merged-IsUsable key crawler_config (merge_with_defaults default_config crawler_config) spaces
          (no_error_right _ _ h),
    )
    section-IsUsable available d key null spaces h = absurd (refused_kind _ _ h)
    section-IsUsable available d key (bool _) spaces h = absurd (refused_kind _ _ h)
    section-IsUsable available d key (int _) spaces h = absurd (refused_kind _ _ h)
    section-IsUsable available d key (negative _) spaces h = absurd (refused_kind _ _ h)
    section-IsUsable available d key (real _) spaces h = absurd (refused_kind _ _ h)
    section-IsUsable available d key (text _) spaces h = absurd (refused_kind _ _ h)
    section-IsUsable available d key (list _) spaces h = absurd (refused_kind _ _ h)

    sections-IsUsable :
        (available : List String) (default_config config : Fields) (key : String) (v : Value)
        → IgnoresSpaces lib exception
        → any_error (sections_issues lib exception int_of available default_config config) ≡ false
        → get key config ≡ some v
        → str_eq key "default" ≡ false
        → (crawler_config : Fields) × (v ≡ dict crawler_config)
          × IsUsable (merge_with_defaults default_config crawler_config)
    unfolding sections_issues get
    sections-IsUsable available d end key v spaces h e ne = absurd (ground arith)
    sections-IsUsable available d (field k w rest) key v spaces h e ne =
        elim (Bool-cases (str_eq k key)) [
          | inl q ↦
              section-IsUsable available d k v spaces
                (no_error_left _ rest_issues (ground (arith, eq_iff k key)))
          | inr q ↦
              sections-IsUsable available d rest key v spaces
                (later (Bool-cases (str_eq k "default"))) (ground arith) ne
        ]
      where
        rest_issues : List ValidationIssue
        rest_issues = sections_issues lib exception int_of available d rest

        later :
            (str_eq k "default" ≡ true) ⊎ (str_eq k "default" ≡ false)
            → any_error rest_issues ≡ false
        later (inl q) = ground arith
        later (inr q) =
            no_error_right (section_issues lib exception int_of available d k w) rest_issues
              (ground arith)

    default-IsUsable :
        (available : List String) (config : Fields) (key : String) (v : Value) (o : Option Value)
        → IgnoresSpaces lib exception
        → any_error (
            (checked_default o).1
            ++ sections_issues lib exception int_of available (checked_default o).0 config)
          ≡ false
        → get key config ≡ some v
        → str_eq key "default" ≡ false
        → get "default" config ≡ o
        → (default_config : Fields) × (get "default" config ≡ some (dict default_config))
          × (crawler_config : Fields) × (v ≡ dict crawler_config)
          × IsUsable (merge_with_defaults default_config crawler_config)
    unfolding checked_default
    default-IsUsable available config key v (some (dict d)) spaces h e ne q =
        let (c, r, usable) =
          sections-IsUsable available d config key v spaces (no_error_right [] _ h) e ne in
        (d, q, c, r, usable)
    default-IsUsable available config key v none spaces h e ne q =
        absurd (refused_kind _ _ (no_error_left _ _ h))
    default-IsUsable available config key v (some null) spaces h e ne q =
        absurd (refused_kind _ _ (no_error_left _ _ h))
    default-IsUsable available config key v (some (bool _)) spaces h e ne q =
        absurd (refused_kind _ _ (no_error_left _ _ h))
    default-IsUsable available config key v (some (int _)) spaces h e ne q =
        absurd (refused_kind _ _ (no_error_left _ _ h))
    default-IsUsable available config key v (some (negative _)) spaces h e ne q =
        absurd (refused_kind _ _ (no_error_left _ _ h))
    default-IsUsable available config key v (some (real _)) spaces h e ne q =
        absurd (refused_kind _ _ (no_error_left _ _ h))
    default-IsUsable available config key v (some (text _)) spaces h e ne q =
        absurd (refused_kind _ _ (no_error_left _ _ h))
    default-IsUsable available config key v (some (list _)) spaces h e ne q =
        absurd (refused_kind _ _ (no_error_left _ _ h))

    -- A file that the admin finds no error in has a mapping as its `default` and in every other
    -- section, and each section laid over the default is a configuration that a crawler can run
    -- with: a schedule that the scheduler parses, a boolean `enable`, and a schema and a database
    -- that are not blank, provided that the cron library ignores spaces around a schedule.
    pub accepted_file_IsUsable :
        (available : List String) (config : Fields) (key : String) (v : Value)
        → IgnoresSpaces lib exception
        → has_errors (validate_config_text lib exception int_of available (value (dict config)))
          ≡ false
        → get key config ≡ some v
        → str_eq key "default" ≡ false
        → (default_config : Fields) × (get "default" config ≡ some (dict default_config))
          × (crawler_config : Fields) × (v ≡ dict crawler_config)
          × IsUsable (merge_with_defaults default_config crawler_config)
    unfolding validate_config_text parse_yaml_text validate_parsed validate_config has_errors
    accepted_file_IsUsable available config key v spaces h e ne =
        default-IsUsable available config key v (get "default" config) spaces h e ne refl
