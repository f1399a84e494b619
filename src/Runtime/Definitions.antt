-- ===== src/Runtime/Definitions.antt =====
-- `get_action_definitions` of crawler_admin/runtime_service.py: which actions a crawler offers.
use open_energy_data_server.Common.{
  ℕ, String, Bool, true, false, Option, List, [], ◌∷◌, ◌++◌, str_eq, if◌then◌else◌,
}
use open_energy_data_server.Yaml.{Value, Fields}
use open_energy_data_server.Runtime.Forms.{
  ActionDefinition, run_now_action, weather_action, eurostat_action, targeted_action,
  backfill_action, forecast_action, gapfill_action,
}

pub record CrawlerOverview : Type 0 where
  pub crawler_name : String
  pub has_card : Bool
  pub raw_config : Fields
  pub effective_config : Fields

-- the table names of `ENTSOE_FMS_TABLES`
abbrev pub entsoe_fms_table_names : List String
entsoe_fms_table_names =
    "ActualTotalLoad" ∷ "DayAheadTotalLoadForecast" ∷ "AggregatedGenerationPerType"
    ∷ "DayAheadAggregatedGeneration" ∷ "GenerationForecastsForWindAndSolar" ∷ "EnergyPrices"
    ∷ "ForecastedTransferCapacities" ∷ "PhysicalFlows" ∷ "TotalLoadForecast" ∷ []

-- the table names of `BUILTIN_GAPFILL_TABLES_BY_JOB.get(crawler_name, ())`
unfoldable pub builtin_gapfill_tables : String → List String
builtin_gapfill_tables crawler_name =
    if str_eq crawler_name "entsoe_fms" then entsoe_fms_table_names else []

-- `actions.append(…)` under a test
unfoldable pub when : Bool → List ActionDefinition → List ActionDefinition
when test actions = if test then actions else []

unfoldable pub has_any : List String → Bool
has_any [] = false
has_any (_ ∷ _) = true

-- What the definitions read besides the overview: the environment, the year, `int` and `str`.
pub record Surroundings : Type 0 where
  pub getenv : String → Option String
  pub this_year : ℕ
  pub int_of : String → Option Value
  pub str : Value → String

unfoldable pub get_action_definitions : Surroundings → CrawlerOverview → List ActionDefinition
unfolding when has_any run_now_action weather_action eurostat_action targeted_action backfill_action
    forecast_action gapfill_action builtin_gapfill_tables
get_action_definitions w overview =
    let config = overview.effective_config in
    let name = overview.crawler_name in
    let supported_tables = builtin_gapfill_tables name in
    run_now_action ∷ []
    ++ when (str_eq name "weather_forecast") (weather_action config ∷ [])
    ++ when (str_eq name "eurostat_crawler") (eurostat_action w.this_year config ∷ [])
    ++ when (str_eq name "entsoe_fms") (targeted_action config ∷ backfill_action ∷ [])
    ++ when (str_eq name "entsoe_api") (forecast_action w.getenv w.int_of ∷ [])
    ++ when (has_any supported_tables) (gapfill_action w.str supported_tables config ∷ [])
