-- ===== src/Gapfill/Select.antt =====
-- `ENTSOE_FMS_TABLES` and `select_tables` in scripts/lib/gapfiller/config.py. The fields that
-- `replace` gives every table alike stand beside the table, in `Settings`.
pub mod Laws
use open_energy_data_server.Common.{
  ℕ, String, Bool, Option, none, some, List, [], ◌∷◌, str_eq, if◌then◌else◌,
}
use open_energy_data_server.Common.Dict
use open_energy_data_server.Common.Dict.{Dict}
use open_energy_data_server.Common.Sets.{contains}
use open_energy_data_server.Gapfill.Tables.{TimeSeriesTableConfig}

-- a table whose other fields have their defaults
abbrev pub utc_table : String → List String → List String → TimeSeriesTableConfig
utc_table table_name value_columns groupby_columns = record {
  table_name = table_name;
  time_column = "DateTime(UTC)";
  value_columns = value_columns;
  groupby_columns = groupby_columns;
  update_time_column = some "UpdateTime(UTC)";
  method = "donor_refined";
}

abbrev pub entsoe_fms_tables : List TimeSeriesTableConfig
entsoe_fms_tables =
    utc_table "ActualTotalLoad" ("TotalLoad[MW]" ∷ [])
      ("ResolutionCode" ∷ "AreaCode" ∷ "AreaDisplayName" ∷ "AreaTypeCode" ∷ "AreaMapCode" ∷ [])
    ∷ utc_table "DayAheadTotalLoadForecast" ("TotalLoad[MW]" ∷ [])
        ("ResolutionCode" ∷ "AreaCode" ∷ "AreaDisplayName" ∷ "AreaTypeCode" ∷ "AreaMapCode" ∷ [])
    ∷ utc_table "AggregatedGenerationPerType"
        ("ActualGenerationOutput[MW]" ∷ "ActualConsumption[MW]" ∷ [])
        ("ResolutionCode" ∷ "AreaCode" ∷ "AreaDisplayName" ∷ "AreaTypeCode" ∷ "AreaMapCode"
          ∷ "ProductionType" ∷ [])
    ∷ utc_table "DayAheadAggregatedGeneration"
        ("GenerationForecast[MW]" ∷ "ScheduledConsumption[MW]" ∷ [])
        ("ResolutionCode" ∷ "AreaCode" ∷ "AreaDisplayName" ∷ "AreaTypeCode" ∷ "AreaMapCode" ∷ [])
    ∷ utc_table "GenerationForecastsForWindAndSolar"
        ("DayAheadGenerationForecast[MW]" ∷ "IntradayGenerationForecast[MW]"
          ∷ "CurrentGenerationForecast[MW]" ∷ [])
        ("ResolutionCode" ∷ "AreaCode" ∷ "AreaDisplayName" ∷ "AreaTypeCode" ∷ "AreaMapCode"
          ∷ "ProductionType" ∷ [])
    ∷ utc_table "EnergyPrices" ("Price[Currency/MWh]" ∷ []) (
        "ResolutionCode" ∷ "AreaCode" ∷ "AreaDisplayName" ∷ "AreaTypeCode" ∷ "MapCode"
        ∷ "ContractType" ∷ "Sequence" ∷ "Currency" ∷ [])
    ∷ utc_table "ForecastedTransferCapacities" ("ForecastTransferCapacity[MW]" ∷ []) (
        "ResolutionCode" ∷ "OutAreaCode" ∷ "OutAreaDisplayName" ∷ "OutAreaTypeCode" ∷ "OutMapCode"
        ∷ "InAreaCode" ∷ "InAreaDisplayName" ∷ "InAreaTypeCode" ∷ "InMapCode" ∷ "ContractType" ∷ [])
    ∷ utc_table "PhysicalFlows" ("Flow[MW]" ∷ []) (
        "ResolutionCode" ∷ "OutAreaCode" ∷ "OutAreaDisplayName" ∷ "OutAreaTypeCode"
        ∷ "OutAreaMapCode" ∷ "InAreaCode" ∷ "InAreaDisplayName" ∷ "InAreaTypeCode" ∷ "InAreaMapCode"
        ∷ [])
    ∷ utc_table "TotalLoadForecast" ("MinimumLoadForecast[MW]" ∷ "MaximumLoadForecast[MW]" ∷ []) (
        "ResolutionCode" ∷ "AreaCode" ∷ "AreaDisplayName" ∷ "AreaTypeCode" ∷ "AreaMapCode"
        ∷ "ContractType" ∷ [])
    ∷ []

abbrev pub gapfill_methods : List String
gapfill_methods =
    "linear" ∷ "previous_period" ∷ "seasonal_linear" ∷ "donor_match" ∷ "donor_refined" ∷ []

-- what `select_tables` raises a `ValueError` for
pub data SelectError : Type 0 where
  unknown_table : String → SelectError
  unknown_method : String → SelectError

pub data Selected {ℓ} (A : Type ℓ) : Type ℓ where
  selected : A → Selected A
  value_error : SelectError → Selected A

pub record Settings : Type 0 where
  pub max_gap_periods : ℕ
  pub candidate_periods : Option (List ℕ)
  pub donor_context_periods : ℕ
  -- in minutes, as the candidate periods are
  pub donor_search_radius : ℕ
  pub refinement_periods : ℕ

-- `known_tables[table_name]`; no two of the tables have one name
unfoldable pub known_table : String → List TimeSeriesTableConfig → Option TimeSeriesTableConfig
known_table table_name [] = none
known_table table_name (t ∷ ts) =
    if str_eq t.table_name table_name then some t else known_table table_name ts

-- `configured_methods.get(table_name, method)`
unfoldable pub method_for : String → Dict String → String → String
method_for method table_methods table_name = elim (Dict.get table_name table_methods) [
  | none ↦ method
  | some configured ↦ configured
]

-- `_validate_method`
unfoldable pub validate_method : String → Selected String
unfolding contains
validate_method method =
    if contains method gapfill_methods then selected method else value_error (unknown_method method)

module _ (known_tables : List TimeSeriesTableConfig) where
  -- one round of the loop
  unfoldable pub select_table :
      String → Dict String → Settings → String → Selected (TimeSeriesTableConfig × Settings)
  unfolding known_table method_for validate_method
  select_table method table_methods settings table_name =
      elim (known_table table_name known_tables) [
        | none ↦ value_error (unknown_table table_name)
        | some t ↦ elim (validate_method (method_for method table_methods table_name)) [
          | value_error e ↦ value_error e
          | selected valid ↦ selected (record t { method = valid }, settings)
        ]
      ]

  unfoldable pub select_loop :
      String
      → Dict String
      → Settings
      → List String
      → Selected (List (TimeSeriesTableConfig × Settings))
  unfolding select_table
  select_loop method table_methods settings [] = selected []
  select_loop method table_methods settings (table_name ∷ names) =
      let rest = select_loop method table_methods settings names in
      elim (select_table method table_methods settings table_name) [
        | value_error e ↦ value_error e
        | selected t ↦ elim rest [ value_error e ↦ value_error e | selected ts ↦ selected (t ∷ ts) ]
      ]

unfoldable pub select_tables :
    String
    → Dict String
    → Settings
    → List String
    → Selected (List (TimeSeriesTableConfig × Settings))
unfolding select_loop
select_tables method table_methods settings table_names =
    select_loop entsoe_fms_tables method table_methods settings table_names
