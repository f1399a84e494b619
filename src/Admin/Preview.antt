-- ===== src/Admin/Preview.antt =====
-- `build_cron_preview` of crawler_admin/config_service.py, without the summary and the next runs:
-- `preview.error`.
use open_energy_data_server.Common.{String, Option, none, some, if◌then◌else◌}
use open_energy_data_server.Common.Strip.{strip, is_empty}
use open_energy_data_server.Yaml.{Value, text}
use open_energy_data_server.Scheduler.Cron.{CronLib}

-- `str(exc).strip() or "Could not parse CRON expression."`
unfoldable pub error_text : String → String
unfolding strip is_empty
error_text message =
    if is_empty (strip message) then "Could not parse CRON expression." else strip message

-- The texts of the exceptions of the cron library: of the parser for a text that is no schedule, and of
-- the iterator for a schedule whose next runs it cannot list.
pub record CronErrors (lib : CronLib) : Type 0 where
  pub of_parse : String → String
  pub of_next : lib.Cron → Option String

module _ (lib : CronLib) (exception : CronErrors lib) where
  unfoldable pub parse_error : String → Option String
  unfolding error_text
  parse_error clean_schedule = elim (lib.parse (some (text clean_schedule))) [
    | none ↦ some (error_text (exception.of_parse clean_schedule))
    | some schedule ↦ elim (exception.of_next schedule) [
      | none ↦ none
      | some message ↦ some (error_text message)
    ]
  ]

  unfoldable pub build_cron_preview : Option Value → Option String
  unfolding parse_error strip is_empty
  build_cron_preview none = some "No effective schedule found."
  build_cron_preview (some Value.null) = some "No effective schedule found."
  build_cron_preview (some (text schedule)) =
      if is_empty (strip schedule)
      then some "Schedule must be a non-empty string."
      else parse_error (strip schedule)
  build_cron_preview (some _) = some "Schedule must be a non-empty string."
