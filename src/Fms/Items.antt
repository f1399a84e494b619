-- ===== src/Fms/Items.antt =====
-- The data items and column names of crawler/entsoe_fms.py, and the tests on items and file names.
use Prim.Native.Char.{Char, code}
use open_energy_data_server.Common.{
  ℕ, ◌+◌, ◌*◌, String, Bool, Option, none, some, List, [], ◌∷◌, ◌++◌, ◌&&◌, str_eq, leb, ◌==◌,
  if◌then◌else◌,
}
use open_energy_data_server.Common.Sets.{contains}
use open_energy_data_server.Common.Text.{◌<>◌}
use open_energy_data_server.Common.Strip.{split_by, is_empty}

-- `FMS_ACTIVE_DATA_ITEMS`: each data item with its table
abbrev pub active_data_items : List (String × String)
active_data_items =
    (
      "AggregatedFillingRateOfWaterReservoirsAndHydroStoragePlants_16.1.D_r3",
      "AggregatedFillingRateOfWaterReservoirsAndHydroStoragePlants",
    )
    ∷ ("ActualTotalLoad_6.1.A_r3", "ActualTotalLoad")
    ∷ ("DayAheadTotalLoadForecast_6.1.B_r3", "DayAheadTotalLoadForecast")
    ∷ (
      "ActualGenerationOutputPerGenerationUnit_16.1.A_r3",
      "ActualGenerationOutputPerGenerationUnit",
    )
    ∷ ("AggregatedGenerationPerType_16.1.B_C_r3", "AggregatedGenerationPerType")
    ∷ ("CommercialSchedulesNetPositions_12.1.F_r3", "CommercialSchedulesNetPositions")
    ∷ ("DayAheadAggregatedGeneration_14.1.C_r3", "DayAheadAggregatedGeneration")
    ∷ ("GenerationForecastsForWindAndSolar_14.1.D_r3", "GenerationForecastsForWindAndSolar")
    ∷ ("EnergyPrices_12.1.D_r3", "EnergyPrices")
    ∷ ("ExpansionAndDismantlingProjects_9.1_r3", "ExpansionAndDismantlingProjects")
    ∷ ("ForecastedTransferCapacities_11.1_r3", "ForecastedTransferCapacities")
    ∷ (
      "InstalledGenerationCapacityPerProductionUnit_14.1.B_r3",
      "InstalledGenerationCapacityPerProductionUnit",
    )
    ∷ ("InstalledGenerationCapacityAggregated_14.1.A_r3", "InstalledGenerationCapacityAggregated")
    ∷ ("PhysicalFlows_12.1.G_r3", "PhysicalFlows")
    ∷ ("ProductionAndGenerationUnits_r3", "ProductionAndGenerationUnits")
    ∷ ("TotalCapacityAlreadyAllocated_12.1.C_r3", "TotalCapacityAlreadyAllocated")
    ∷ ("TotalCapacityNominated_12.1.B_r3", "TotalCapacityNominated")
    ∷ ("TotalLoadForecast_6.1.C_D_E_r3", "TotalLoadForecast")
    ∷ ("TransmissionAssets_r3", "TransmissionAssets")
    ∷ ("UnavailabilityInTheTransmissionGrid_10.1.A_B_r3", "UnavailabilityInTheTransmissionGrid")
    ∷ ("UnavailabilityOfConsumptionUnits_7.1.A_B_r3", "UnavailabilityOfConsumptionUnits")
    ∷ ("UnavailabilityOfOffshoreGrid_10.1.C_r3", "UnavailabilityOfOffshoreGrid")
    ∷ (
      "UnavailabilityOfProductionAndGenerationUnits_15.1.A_B_C_D_r3",
      "UnavailabilityOfProductionAndGenerationUnits",
    )
    ∷ ("UseOfTransferCapacity_12.1.A_r3", "UseOfTransferCapacity")
    ∷ ("YearAheadForecastMargin_8.1_r3", "YearAheadForecastMargin")
    ∷ []

abbrev pub single_file_data_items : List String
single_file_data_items =
    "InstalledGenerationCapacityAggregated_14.1.A_r3"
    ∷ "InstalledGenerationCapacityPerProductionUnit_14.1.B_r3" ∷ "ProductionAndGenerationUnits_r3"
    ∷ "TransmissionAssets_r3" ∷ "YearAheadForecastMargin_8.1_r3" ∷ []

abbrev pub annual_file_data_items : List String
annual_file_data_items =
    "AggregatedFillingRateOfWaterReservoirsAndHydroStoragePlants_16.1.D_r3"
    ∷ "ExpansionAndDismantlingProjects_9.1_r3" ∷ []

abbrev pub unfiltered_date_data_items : List String
unfiltered_date_data_items =
    single_file_data_items
    ++ "AggregatedFillingRateOfWaterReservoirsAndHydroStoragePlants_16.1.D_r3"
      ∷ "ExpansionAndDismantlingProjects_9.1_r3" ∷ []

abbrev pub full_upsert_tables : List String
full_upsert_tables =
    "InstalledGenerationCapacityAggregated" ∷ "InstalledGenerationCapacityPerProductionUnit"
    ∷ "ProductionAndGenerationUnits" ∷ "TransmissionAssets" ∷ "UnavailabilityInTheTransmissionGrid"
    ∷ "UnavailabilityOfGenerationUnits" ∷ "UnavailabilityOfGenerationUnitsReasons"
    ∷ "UnavailabilityOfOffshoreGrid" ∷ "UnavailabilityOfProductionUnits"
    ∷ "UnavailabilityOfProductionUnitsReasons" ∷ "UnavailabilityOfProductionAndGenerationUnits" ∷ []

abbrev pub update_time_columns : List String
update_time_columns = "UpdateTime" ∷ "UpdateTime (UTC)" ∷ "UpdateTime(UTC)" ∷ []

-- `TARGET_FILES_DIR`
unfoldable pub target_files_dirs : List (String × String) → List String
target_files_dirs [] = []
target_files_dirs ((data_item, _) ∷ items) =
    ("/TP_export/" <> data_item <> "/") ∷ target_files_dirs items

-- `dir_path.strip("/").split("/")[-1]`: the last part that is not empty, of a path with one
unfoldable pub last_part : List String → String
unfolding is_empty
last_part [] = ""
last_part (part ∷ parts) = let rest = last_part parts in if is_empty rest then part else rest

unfoldable pub data_item_of_dir : String → String
unfolding last_part split_by
data_item_of_dir dir_path = last_part (split_by (λ c. c == 47) dir_path)

-- `DATA_ITEM_TABLE_MAP[data_item]`, `none` for a `KeyError`
unfoldable pub get_table_name : String → List (String × String) → Option String
get_table_name data_item [] = none
get_table_name data_item ((item, table_name) ∷ items) =
    if str_eq item data_item then some table_name else get_table_name data_item items

unfoldable pub items_in : List String → List (String × String) → List String
unfolding contains
items_in requested [] = []
items_in requested ((item, _) ∷ items) =
    let rest = items_in requested items in if contains item requested then item ∷ rest else rest

unfoldable pub all_items : List (String × String) → List String
all_items [] = []
all_items ((item, _) ∷ items) = item ∷ all_items items

-- `_get_target_data_items`, of the list that the configuration gives; a warning names the unknown
unfoldable pub get_target_data_items : List String → List String
unfolding items_in all_items
get_target_data_items [] = all_items active_data_items
get_target_data_items (item ∷ items) = items_in (item ∷ items) active_data_items

unfoldable pub should_skip_date_filter : String → Bool
unfolding contains
should_skip_date_filter data_item = contains data_item unfiltered_date_data_items

-- The period in a file's name: the number of the year's first month and the month. The month is 1
-- where the name has none. `digit` is the value of a character that `\d` matches.
pub data Period : Type 0 where
  period : ℕ → ℕ → Period

module _ (digit : Char → Option ℕ) where
  unfoldable pub digits_from : ℕ → List (Option ℕ) → Option ℕ
  digits_from n [] = some n
  digits_from n (none ∷ ds) = none
  digits_from n (some d ∷ ds) = digits_from (n * 10 + d) ds

  -- `^(?P<year>\d{4})(?:_(?P<month>\d{2}))?`
  unfoldable pub match_month : String → ℕ
  unfolding digits_from
  match_month (String.◌∷◌ sep (String.◌∷◌ a (String.◌∷◌ b s))) =
      if code sep == 95
      then elim (digits_from 0 (digit a ∷ digit b ∷ [])) [ none ↦ 1 | some month ↦ month ]
      else 1
  match_month _ = 1

  unfoldable pub match_period : String → Option Period
  unfolding digits_from match_month
  match_period (String.◌∷◌ a (String.◌∷◌ b (String.◌∷◌ c (String.◌∷◌ d s)))) =
      elim (digits_from 0 (digit a ∷ digit b ∷ digit c ∷ digit d ∷ [])) [
        | none ↦ none
        | some year ↦ some (period year (match_month s))
      ]
  match_period _ = none

  -- the number of the month, where `pd.Timestamp` accepts the year and the month
  unfoldable pub extract_file_period_start : (ℕ → Bool) → String → Option ℕ
  unfolding match_period
  extract_file_period_start is_year filename = elim (match_period filename) [
    | none ↦ none
    | some (period year month) ↦
        if is_year year && leb 1 month && leb month 12 then some (year * 12 + month) else none
  ]
