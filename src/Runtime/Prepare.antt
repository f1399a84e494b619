-- ===== src/Runtime/Prepare.antt =====
-- `prepare_action` of crawler_admin/runtime_service.py: one function for each action it prepares,
-- and the tests before them. A `PreparedAction` keeps its executor as the name of the function with
-- the payload that the source's `lambda` closes over.
pub mod Accepts
pub mod Laws
use open_energy_data_server.Common.{
  ℕ, zero, suc, String, Bool, true, false, not, Option, none, some, List, [], ◌∷◌, ◌++◌, ◌||◌,
  str_eq, leb, ltb, length, if◌then◌else◌,
}
use open_energy_data_server.Common.Text.{◌<>◌, decimal}
use open_energy_data_server.Common.Strip.{strip, is_empty}
use open_energy_data_server.Common.Sets.{contains}
use open_energy_data_server.Yaml
use open_energy_data_server.Yaml.{
  Value, text, int, list, dict, Fields, end, field, Items, nil, cons,
}
use open_energy_data_server.Runtime.Action.{
  PreparedAction, Executor, run_default, run_entsoe_backfill, run_gapfill_backfill,
  run_price_forecast, BackfillPayload, GapfillPayload, ForecastPayload,
}
use open_energy_data_server.Runtime.Definitions.{
  CrawlerOverview, Surroundings, get_action_definitions, builtin_gapfill_tables,
}
use open_energy_data_server.Runtime.Forms.{ActionDefinition}
use open_energy_data_server.Runtime.DataItems.{
  fms_active_data_items, item_names, get_entsoe_backfill_cadence,
}
use open_energy_data_server.Runtime.Inputs.{
  Checked, ok, refused, refuse, refuse_if, ◌>>=◌, ◌>>◌, Python, text_or_empty, parse_int,
  require_text, parse_timestamp, parse_date, ensure_list, split_csv_values, refuse_names,
  sorted_set, not_in, validate_entsoe_backfill_range,
}
use open_energy_data_server.Runtime.Locations.{filter_weather_locations}
use open_energy_data_server.Runtime.Prepared.{
  text_items, dict_items, update, definition_of, index_of, default_run, helper_run, backfill_fields,
  gapfill_fields, forecast_fields, up_to,
}

-- `if not overview.raw_config`
unfoldable pub has_section : Fields → Bool
has_section end = false
has_section (field _ _ _) = true

-- `if not supported_tables: raise …`
unfoldable pub some_tables : String → List String → Checked (Unit {0})
some_tables crawler_name [] =
    refuse ("Crawler '" <> crawler_name <> "' does not have built-in gapfill table metadata.")
some_tables crawler_name (_ ∷ _) = ok tt

module _ (py : Python) (weather_module : Checked Items) where
  -- `str(action_payload.get(key, ""))`
  unfoldable pub text_of : Option Value → String
  text_of none = ""
  text_of (some v) = py.str v

  unfoldable pub or_default : String → Option Value → String
  unfolding text_or_empty is_empty
  or_default fallback v = let t = text_or_empty py v in if is_empty t then fallback else t

  module _ (overview : CrawlerOverview) (label : String) (payload : Fields) where
    unfoldable pub prepare_run_now : PreparedAction
    unfolding default_run
    prepare_run_now =
        default_run overview "run_now" label
          "One-off manual run with the current YAML configuration. Scheduler settings stay unchanged."
          end end

    -- `if location_ids: …`
    unfoldable pub location_overrides : List String → Checked Fields
    unfolding filter_weather_locations dict_items
    location_overrides [] = ok end
    location_overrides (x ∷ xs) = do
      locations ← filter_weather_locations py weather_module overview.effective_config (x ∷ xs)
      ok (field "locations" (list (dict_items locations)) end)

    unfoldable pub prepare_weather_window : Checked PreparedAction
    unfolding parse_int split_csv_values location_overrides default_run text_items decimal
    prepare_weather_window = do
      forecast_hours ← parse_int py (Yaml.get "forecast_hours" payload) "Forecast hours" 1 336
      past_hours ← parse_int py (Yaml.get "past_hours" payload) "Past hours" 0 336
      let location_ids = split_csv_values py (Yaml.get "location_ids" payload)
      locations ← location_overrides location_ids
      ok (
          default_run overview "weather_window" label
            ("Weather run with forecast_hours="
              <> decimal forecast_hours
              <> ", past_hours="
              <> decimal past_hours
              <> ".")
            (field "forecast_hours" (int forecast_hours)
              (field "past_hours" (int past_hours) locations))
            (field "location_ids" (list (text_items location_ids)) end))

    unfoldable pub prepare_eurostat_range : Checked PreparedAction
    unfolding require_text parse_int refuse_if default_run decimal
    prepare_eurostat_range = do
      dataset_id ← require_text py (Yaml.get "dataset_id" payload) "Dataset id"
      start_year ← parse_int py (Yaml.get "start_year" payload) "Start year" 1990 2100
      end_year ← parse_int py (Yaml.get "end_year" payload) "End year" 1990 2100
      refuse_if (ltb end_year start_year) "End year must not be earlier than start year."
      ok (
          default_run overview "eurostat_range" label
            ("Eurostat run for dataset "
              <> dataset_id
              <> " and years "
              <> decimal start_year
              <> "-"
              <> decimal end_year
              <> ".")
            (field "dataset_id" (text dataset_id)
              (field "start_year" (int start_year) (field "end_year" (int end_year) end)))
            end)

    unfoldable pub selection_label : List String → String
    unfolding decimal
    selection_label [] = "all active items"
    selection_label (x ∷ xs) = decimal (length (x ∷ xs)) <> " selected item(s)"

    unfoldable pub target_overrides : List String → Fields
    unfolding text_items
    target_overrides [] = end
    target_overrides (x ∷ xs) = field "target_data_items" (list (text_items (x ∷ xs))) end

    unfoldable pub prepare_entsoe_targeted : Checked PreparedAction
    unfolding ensure_list refuse_names sorted_set not_in item_names selection_label target_overrides
        default_run text_items
    prepare_entsoe_targeted = do
      let target_items = ensure_list py (Yaml.get "target_data_items" payload)
      refuse_names "Unknown FMS data item(s): "
          (sorted_set (not_in (item_names fms_active_data_items) target_items))
      ok (
          default_run overview "entsoe_targeted" label
            ("ENTSO-E targeted run for " <> selection_label target_items <> ".")
            (target_overrides target_items)
            (field "target_data_items" (list (text_items target_items)) end))

    -- the times of the backfill of a data item, which a single file has none of
    unfoldable pub backfill_range : String → Checked (String × String)
    unfolding get_entsoe_backfill_cadence text_of strip is_empty refuse_if
        validate_entsoe_backfill_range
    backfill_range data_item =
        let start_value = strip (text_of (Yaml.get "start" payload)) in
        let end_value = strip (text_of (Yaml.get "end" payload)) in
        if str_eq (get_entsoe_backfill_cadence data_item) "single"
        then ok ("", "")
        else (refuse_if (is_empty start_value || is_empty end_value)
              "Backfill start and end are required for monthly and annual files."
            >> validate_entsoe_backfill_range py data_item start_value end_value
            >> ok (start_value, end_value))

    unfoldable pub prepare_entsoe_backfill : Checked PreparedAction
    unfolding require_text contains item_names refuse_if backfill_range index_of helper_run
        backfill_fields get_entsoe_backfill_cadence
    prepare_entsoe_backfill = do
      data_item ← require_text py (Yaml.get "data_item" payload) "Data item"
      refuse_if (not (contains data_item (item_names fms_active_data_items)))
          ("Unknown FMS data item '" <> data_item <> "'.")
      range ← backfill_range data_item
      let p : BackfillPayload = record {
        data_item = data_item;
        start = range.0;
        end_value = range.1;
        target_files_dir_index = index_of data_item (item_names fms_active_data_items);
        cadence = get_entsoe_backfill_cadence data_item;
      }
      ok (
          helper_run overview "entsoe_backfill" label
            (if str_eq p.cadence "single"
              then "ENTSO-E backfill for " <> data_item <> "."
              else "ENTSO-E backfill for " <> data_item <> " (" <> p.start <> " to " <> p.end_value
                <> ").")
            (backfill_fields p) (run_entsoe_backfill p) true)

    -- `end_timestamp` and its test, where an end is given
    unfoldable pub check_gapfill_end : String → ℕ → Checked (Unit {0})
    unfolding is_empty parse_timestamp refuse_if
    check_gapfill_end end_value start_timestamp =
        if is_empty end_value
        then ok tt
        else (parse_timestamp py end_value "Gapfill end" >>= λ end_timestamp.
            refuse_if (ltb end_timestamp start_timestamp)
              "Gapfill end must not be earlier than gapfill start.")

    unfoldable pub prepare_gapfill_backfill : Checked PreparedAction
    unfolding builtin_gapfill_tables some_tables require_text text_or_empty strip parse_timestamp
        check_gapfill_end ensure_list refuse_names sorted_set not_in helper_run gapfill_fields up_to
    prepare_gapfill_backfill = do
      let supported_tables = builtin_gapfill_tables overview.crawler_name
      some_tables overview.crawler_name supported_tables
      start_value ← require_text py (Yaml.get "gapfill_start" payload) "Gapfill start"
      let end_value = strip (text_or_empty py (Yaml.get "gapfill_end" payload))
      start_timestamp ← parse_timestamp py start_value "Gapfill start"
      check_gapfill_end end_value start_timestamp
      let selected_tables = ensure_list py (Yaml.get "gapfill_tables" payload)
      refuse_names "Unknown gapfill table(s): "
          (sorted_set (not_in supported_tables selected_tables))
      let p : GapfillPayload = record {
        job = overview.crawler_name;
        start = start_value;
        end_value = end_value;
        tables = selected_tables;
      }
      ok (
          helper_run overview "gapfill_backfill" label
            (up_to ("Gapfill backfill for " <> overview.crawler_name <> " from " <> start_value)
              end_value)
            (gapfill_fields p) (run_gapfill_backfill p) false)

    -- `if target_date: self._parse_date(…)`
    unfoldable pub check_target_date : String → Checked (Unit {0})
    unfolding is_empty parse_date
    check_target_date target_date =
        if is_empty target_date then ok tt else parse_date py target_date "Target date" >> ok tt

    unfoldable pub forecast_description : ForecastPayload → String
    unfolding is_empty
    forecast_description p =
        let what =
          if str_eq p.run_mode "self_test"
          then "Price forecast self-test"
          else "Price forecast run" in
        if is_empty p.target_date then what <> "." else what <> " for " <> p.target_date <> "."

    unfoldable pub prepare_price_forecast : Checked PreparedAction
    unfolding or_default strip contains refuse_if text_or_empty check_target_date parse_int
        helper_run forecast_fields forecast_description
    prepare_price_forecast = do
      refuse_if (not (str_eq overview.crawler_name "entsoe_api"))
          "Price forecast can only be started from the entsoe_api crawler."
      let run_mode = py.lower (strip (or_default "forecast" (Yaml.get "run_mode" payload)))
      refuse_if (not (contains run_mode ("forecast" ∷ "self_test" ∷ [])))
          "Price forecast run mode is invalid."
      let target_date = strip (text_or_empty py (Yaml.get "target_date" payload))
      check_target_date target_date
      train_days ← parse_int py (Yaml.get "train_days" payload) "Train days" 14 365
      backtest_days ← parse_int py (Yaml.get "backtest_days" payload) "Backtest days" 0 60
      let model_backend = py.lower (strip (or_default "auto" (Yaml.get "model_backend" payload)))
      refuse_if (not (contains model_backend ("auto" ∷ "upstream" ∷ "ridge" ∷ [])))
          "Model backend must be auto, upstream, or ridge."
      let p : ForecastPayload = record {
        run_mode = run_mode;
        target_date = target_date;
        train_days = train_days;
        backtest_days = backtest_days;
        model_backend = model_backend;
      }
      ok (
          helper_run overview "price_forecast" label (forecast_description p) (forecast_fields p)
            (run_price_forecast p) false)

    -- the chain of tests on `action_id`
    unfoldable pub prepare_by_id : String → Checked PreparedAction
    unfolding prepare_run_now prepare_weather_window prepare_eurostat_range prepare_entsoe_targeted
        prepare_entsoe_backfill prepare_gapfill_backfill prepare_price_forecast
    prepare_by_id action_id =
        if str_eq action_id "run_now"
        then ok prepare_run_now
        else if str_eq action_id "weather_window"
        then prepare_weather_window
        else if str_eq action_id "eurostat_range"
        then prepare_eurostat_range
        else if str_eq action_id "entsoe_targeted"
        then prepare_entsoe_targeted
        else if str_eq action_id "entsoe_backfill"
        then prepare_entsoe_backfill
        else if str_eq action_id "gapfill_backfill"
        then prepare_gapfill_backfill
        else if str_eq action_id "price_forecast"
        then prepare_price_forecast
        else refuse ("No runtime handler registered for action '" <> action_id <> "'.")

  unfoldable pub prepare_action :
      Surroundings → CrawlerOverview → String → Fields → Checked PreparedAction
  unfolding has_section definition_of get_action_definitions prepare_by_id
  prepare_action w overview action_id action_payload =
      if not overview.has_card
      then refuse ("Unknown crawler '" <> overview.crawler_name <> "'.")
      else if not (has_section overview.raw_config)
      then refuse (
          "Crawler '" <> overview.crawler_name
          <> "' has no section in CRAWLER_CONFIG.yml and cannot be started from the admin UI.")
      else elim (definition_of action_id (get_action_definitions w overview)) [
        | none ↦
            refuse (
              "Unknown action '" <> action_id <> "' for crawler '" <> overview.crawler_name <> "'.")
        | some definition ↦ prepare_by_id overview definition.label action_payload action_id
      ]
