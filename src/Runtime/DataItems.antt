-- ===== src/Runtime/DataItems.antt =====
-- The ENTSO-E data items of crawler_admin/runtime_service.py and the cadence of their files.
use open_energy_data_server.Common.{String, List, [], ◌∷◌, if◌then◌else◌}
use open_energy_data_server.Common.Sets.{contains}

abbrev pub fms_active_data_items : List (String × String)
fms_active_data_items =
    (
      "AggregatedFillingRateOfWaterReservoirsAndHydroStoragePlants_16.1.D_r3",
      "AggregatedFillingRateOfWaterReservoirsAndHydroStoragePlants",
    )
    ∷ ("ActualTotalLoad_6.1.A_r3", "ActualTotalLoad")
    ∷ ("DayAheadTotalLoadForecast_6.1.B_r3", "DayAheadTotalLoadForecast")
    ∷ (
      "ActualGenerationOutputPerGenerationUnit_16.1.A_r3",
      "ActualGenerationOutputPerGenerationUnit",
    )
    ∷ ("AggregatedGenerationPerType_16.1.B_C_r3", "AggregatedGenerationPerType")
    ∷ ("CommercialSchedulesNetPositions_12.1.F_r3", "CommercialSchedulesNetPositions")
    ∷ ("DayAheadAggregatedGeneration_14.1.C_r3", "DayAheadAggregatedGeneration")
    ∷ ("GenerationForecastsForWindAndSolar_14.1.D_r3", "GenerationForecastsForWindAndSolar")
    ∷ ("EnergyPrices_12.1.D_r3", "EnergyPrices")
    ∷ ("ExpansionAndDismantlingProjects_9.1_r3", "ExpansionAndDismantlingProjects")
    ∷ ("ForecastedTransferCapacities_11.1_r3", "ForecastedTransferCapacities")
    ∷ (
      "InstalledGenerationCapacityPerProductionUnit_14.1.B_r3",
      "InstalledGenerationCapacityPerProductionUnit",
    )
    ∷ ("InstalledGenerationCapacityAggregated_14.1.A_r3", "InstalledGenerationCapacityAggregated")
    ∷ ("PhysicalFlows_12.1.G_r3", "PhysicalFlows")
    ∷ ("ProductionAndGenerationUnits_r3", "ProductionAndGenerationUnits")
    ∷ ("TotalCapacityAlreadyAllocated_12.1.C_r3", "TotalCapacityAlreadyAllocated")
    ∷ ("TotalCapacityNominated_12.1.B_r3", "TotalCapacityNominated")
    ∷ ("TotalLoadForecast_6.1.C_D_E_r3", "TotalLoadForecast")
    ∷ ("TransmissionAssets_r3", "TransmissionAssets")
    ∷ ("UnavailabilityInTheTransmissionGrid_10.1.A_B_r3", "UnavailabilityInTheTransmissionGrid")
    ∷ ("UnavailabilityOfConsumptionUnits_7.1.A_B_r3", "UnavailabilityOfConsumptionUnits")
    ∷ ("UnavailabilityOfOffshoreGrid_10.1.C_r3", "UnavailabilityOfOffshoreGrid")
    ∷ (
      "UnavailabilityOfProductionAndGenerationUnits_15.1.A_B_C_D_r3",
      "UnavailabilityOfProductionAndGenerationUnits",
    )
    ∷ ("UseOfTransferCapacity_12.1.A_r3", "UseOfTransferCapacity")
    ∷ ("YearAheadForecastMargin_8.1_r3", "YearAheadForecastMargin")
    ∷ []

abbrev pub fms_single_file_data_items : List String
fms_single_file_data_items =
    "InstalledGenerationCapacityAggregated_14.1.A_r3"
    ∷ "InstalledGenerationCapacityPerProductionUnit_14.1.B_r3" ∷ "ProductionAndGenerationUnits_r3"
    ∷ "TransmissionAssets_r3" ∷ "YearAheadForecastMargin_8.1_r3" ∷ []

abbrev pub fms_annual_file_data_items : List String
fms_annual_file_data_items =
    "AggregatedFillingRateOfWaterReservoirsAndHydroStoragePlants_16.1.D_r3"
    ∷ "ExpansionAndDismantlingProjects_9.1_r3" ∷ []

-- `[item for item, _ in FMS_ACTIVE_DATA_ITEMS]`
unfoldable pub item_names : List (String × String) → List String
item_names [] = []
item_names ((item, table) ∷ items) = item ∷ item_names items

unfoldable pub get_entsoe_backfill_cadence : String → String
unfolding contains
get_entsoe_backfill_cadence data_item =
    if contains data_item fms_single_file_data_items
    then "single"
    else if contains data_item fms_annual_file_data_items
    then "annual"
    else "monthly"
