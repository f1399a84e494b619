-- ===== src/Runtime/Forms.antt =====
-- `ActionField` and `ActionDefinition` of crawler_admin/runtime_service.py, and the form of each action
-- that `get_action_definitions` lists.
use open_energy_data_server.Common.{
  ℕ, String, Bool, true, false, Option, none, some, List, [], ◌∷◌, if◌then◌else◌,
}
use open_energy_data_server.Common.Text.{◌<>◌}
use open_energy_data_server.Common.Strip.{strip, is_empty}
use open_energy_data_server.Yaml
use open_energy_data_server.Yaml.{Value, int, text, list, dict, Fields, Items, nil, cons}
use open_energy_data_server.Runtime.DataItems.{fms_active_data_items, get_entsoe_backfill_cadence}

pub record ActionOption : Type 0 where
  pub value : String
  pub label : String

pub record ActionField : Type 0 where
  pub name : String
  pub label : String
  pub input_type : String
  pub required : Bool
  pub help_text : Option String
  pub placeholder : Option String
  pub options : List ActionOption
  pub default_value : Option Value
  pub min_value : Option ℕ
  pub max_value : Option ℕ

pub record ActionDefinition : Type 0 where
  pub action_id : String
  pub label : String
  pub description : String
  pub button_label : String
  pub fields : List ActionField
  pub note : Option String

-- `effective_config.get(key, fallback)`
unfoldable pub get_or : String → Value → Fields → Value
get_or key fallback config = elim (Yaml.get key config) [ none ↦ fallback | some v ↦ v ]

-- the fields that leave the rest of `ActionField` at its defaults
unfoldable pub text_field : String → String → String → ActionField
text_field name label input_type = record {
  name = name;
  label = label;
  input_type = input_type;
  required = false;
  help_text = none;
  placeholder = none;
  options = [];
  default_value = none;
  min_value = none;
  max_value = none;
}

unfoldable pub number_field : String → String → ℕ → ℕ → Value → ActionField
unfolding text_field
number_field name label min_value max_value default_value =
    record (text_field name label "number") {
      required = true;
      min_value = some min_value;
      max_value = some max_value;
      default_value = some default_value;
    }

unfoldable pub run_now_action : ActionDefinition
run_now_action = record {
  action_id = "run_now";
  label = "Run once";
  description =
      "Execute the crawler immediately as a one-off manual run. The YAML schedule is not changed.";
  button_label = "Start one-off run";
  fields = [];
  note = none;
}

unfoldable pub weather_action : Fields → ActionDefinition
unfolding number_field text_field get_or
weather_action config = record {
  action_id = "weather_window";
  label = "Weather window override";
  description = "Run the weather crawler with temporary forecast and history windows.";
  button_label = "Start weather run";
  fields =
      number_field "forecast_hours" "Forecast hours" 1 336
        (get_or "forecast_hours" (int 120) config)
      ∷ number_field "past_hours" "Past hours" 0 336 (get_or "past_hours" (int 24) config)
      ∷ record (text_field "location_ids" "Location ids (optional)" "text") {
        placeholder = some "berlin,hamburg";
        help_text =
            some
              "Optional comma-separated subset of weather locations. Leave empty to use the configured set.";
        default_value = some (text "");
      }
      ∷ [];
  note = none;
}

unfoldable pub eurostat_action : ℕ → Fields → ActionDefinition
unfolding number_field text_field get_or
eurostat_action this_year config = record {
  action_id = "eurostat_range";
  label = "Eurostat range run";
  description = "Run Eurostat with a temporary dataset id and year range.";
  button_label = "Start Eurostat run";
  fields =
      record (text_field "dataset_id" "Dataset id" "text") {
        required = true;
        default_value = some (get_or "dataset_id" (text "nrg_inf_epcrw") config);
      }
      ∷ number_field "start_year" "Start year" 1990 2100 (get_or "start_year" (int 2019) config)
      ∷ number_field "end_year" "End year" 1990 2100 (get_or "end_year" (int this_year) config)
      ∷ [];
  note = none;
}

unfoldable pub targeted_options : List (String × String) → List ActionOption
targeted_options [] = []
targeted_options ((item_name, table_name) ∷ items) =
    record { value = item_name; label = table_name <> " (" <> item_name <> ")" }
    ∷ targeted_options items

-- `target_defaults`
unfoldable pub list_or_empty : Option Value → Value
list_or_empty (some (list items)) = list items
list_or_empty _ = list nil

unfoldable pub targeted_action : Fields → ActionDefinition
unfolding text_field targeted_options list_or_empty
targeted_action config = record {
  action_id = "entsoe_targeted";
  label = "ENTSO-E targeted run";
  description = "Run ENTSO-E FMS only for a selected subset of active data items.";
  button_label = "Start targeted run";
  fields =
      record (text_field "target_data_items" "Target data items" "multiselect") {
        options = targeted_options fms_active_data_items;
        help_text = some "Leave the selection empty to process the full active item list.";
        default_value = some (list_or_empty (Yaml.get "target_data_items" config));
      }
      ∷ [];
  note = none;
}

unfoldable pub backfill_options : List (String × String) → List ActionOption
unfolding get_entsoe_backfill_cadence
backfill_options [] = []
backfill_options ((item_name, table_name) ∷ items) =
    record {
      value = item_name;
      label = table_name <> " [" <> get_entsoe_backfill_cadence item_name <> "]";
    }
    ∷ backfill_options items

unfoldable pub backfill_action : ActionDefinition
unfolding text_field backfill_options
backfill_action = record {
  action_id = "entsoe_backfill";
  label = "ENTSO-E backfill";
  description = "Trigger the historical backfill helper for one FMS data item.";
  button_label = "Start backfill";
  fields =
      record (text_field "data_item" "Data item" "select") {
        required = true;
        options = backfill_options fms_active_data_items;
      }
      ∷ record (text_field "start" "Start" "text") {
        placeholder = some "2024_01 or 2024";
        help_text = some "Ignored for single-file items.";
      }
      ∷ record (text_field "end" "End" "text") {
        placeholder = some "2024_06 or 2025";
        help_text = some "Ignored for single-file items.";
      }
      ∷ [];
  note =
      some
        "Monthly files use YYYY_MM. Annual files use YYYY. Single-file items ignore start and end.";
}

module _ (getenv : String → Option String) (int_of : String → Option Value) where
  unfoldable pub env_int_default : String → ℕ → Value
  env_int_default name fallback = elim (getenv name) [
    | none ↦ int fallback
    | some given ↦ elim (int_of given) [ none ↦ int fallback | some n ↦ n ]
  ]

  -- `os.getenv(name, fallback)`
  unfoldable pub env_default : String → String → Value
  env_default name fallback = elim (getenv name) [ none ↦ text fallback | some v ↦ text v ]

  unfoldable pub forecast_action : ActionDefinition
  unfolding number_field text_field env_int_default env_default
  forecast_action = record {
    action_id = "price_forecast";
    label = "Price forecast";
    description = "Run the day-ahead price forecast post-run workflow on demand.";
    button_label = "Start price forecast";
    fields =
        record (text_field "run_mode" "Run mode" "select") {
          required = true;
          options =
              record { value = "forecast"; label = "Database forecast" }
              ∷ record { value = "self_test"; label = "Self-test" }
              ∷ [];
          default_value = some (text "forecast");
        }
        ∷ record (text_field "target_date" "Target date" "text") {
          placeholder = some "2026-05-23";
          help_text = some "Leave empty to forecast tomorrow in Europe/Berlin.";
          default_value = some (text "");
        }
        ∷ number_field "train_days" "Train days" 14 365
            (env_int_default "OEDS_PRICE_FORECAST_TRAIN_DAYS" 56)
        ∷ number_field "backtest_days" "Backtest days" 0 60
            (env_int_default "OEDS_PRICE_FORECAST_BACKTEST_DAYS" 2)
        ∷ record (text_field "model_backend" "Model backend" "select") {
          required = true;
          options =
              record { value = "auto"; label = "auto" }
              ∷ record { value = "upstream"; label = "upstream" }
              ∷ record { value = "ridge"; label = "ridge" }
              ∷ [];
          default_value = some (env_default "OEDS_PRICE_FORECAST_BACKEND" "auto");
        }
        ∷ [];
    note =
        some
          "The normal scheduled path still runs scripts/run_price_forecast.py through post_run_scripts.";
  }

unfoldable pub table_options : List String → List ActionOption
table_options [] = []
table_options (table_name ∷ names) =
    record { value = table_name; label = table_name } ∷ table_options names

module _ (str : Value → String) where
  unfoldable pub named_items : Items → Items
  unfolding is_empty strip
  named_items nil = nil
  named_items (cons v items) =
      let rest = named_items items in
      if is_empty (strip (str v)) then rest else cons (text (str v)) rest

  -- `configured_tables`
  unfoldable pub configured_tables : Option Value → Items
  unfolding named_items
  configured_tables (some (dict gapfill_config)) = elim (Yaml.get "tables" gapfill_config) [
    | some (list items) ↦ named_items items
    | _ ↦ nil
  ]
  configured_tables _ = nil

  unfoldable pub gapfill_action : List String → Fields → ActionDefinition
  unfolding text_field table_options configured_tables
  gapfill_action supported_tables config = record {
    action_id = "gapfill_backfill";
    label = "Gapfill backfill";
    description = "Run the configured gapfill process for an explicit source time window.";
    button_label = "Start gapfill backfill";
    fields =
        record (text_field "gapfill_start" "Start timestamp" "text") {
          required = true;
          placeholder = some "2024-01-01 or 2024-01-01T00:00:00Z";
          help_text =
              some
                "First source timestamp to process. Date-only values are treated as UTC midnight.";
        }
        ∷ record (text_field "gapfill_end" "End timestamp (optional)" "text") {
          placeholder = some "2024-12-31 or 2024-12-31T23:00:00Z";
          help_text = some "Leave empty to process through the latest available source timestamp.";
        }
        ∷ record (text_field "gapfill_tables" "Tables (optional)" "multiselect") {
          options = table_options supported_tables;
          help_text =
              some "Leave empty to use the tables selected in the current gapfill configuration.";
          default_value = some (list (configured_tables (Yaml.get "gapfill" config)));
        }
        ∷ [];
    note =
        some
          "Uses the current gapfill settings and writes to the configured target schema. It does not run the crawler first.";
  }
