-- ===== src/Gapfill/SelectTests.antt =====
-- A gap-fill backfill that the admin prepares, and the tables that the gap filler selects for it.
use open_energy_data_server.Common.{◌≡◌, refl, String, true, false, none, some, [], ◌∷◌}
use open_energy_data_server.Common.Dict
use open_energy_data_server.Common.Dict.{Dict}
use open_energy_data_server.Yaml
use open_energy_data_server.Yaml.{text, list, Fields, end, field, nil, cons}
use open_energy_data_server.Gapfill.Select.{
  value_error, unknown_table, unknown_method, Settings, select_tables,
}
use open_energy_data_server.Runtime.Action.{PreparedAction, GapfillPayload, run_gapfill_backfill}
use open_energy_data_server.Runtime.Definitions.{CrawlerOverview, Surroundings}
use open_energy_data_server.Runtime.Inputs.{Python}

abbrev python : Python
python = record {
  int_of = λ t. none;
  str = λ v. elim v [ text t ↦ t | _ ↦ "" ];
  lower = λ t. t;
  fromisoformat = λ t. some 0;
  strptime = λ t format. some 0;
}

abbrev surroundings : Surroundings
surroundings = record { getenv = λ name. none; this_year = 2026; int_of = λ t. none; str = λ v. "" }

abbrev entsoe_fms : CrawlerOverview
entsoe_fms = record {
  crawler_name = "entsoe_fms";
  has_card = true;
  raw_config = field "enable" (text "yes") end;
  effective_config = field "enable" (text "yes") end;
}

abbrev form : Fields
form = field "gapfill_start" (text "2024-01-01 ") (
    field "gapfill_tables" (list (cons (text "PhysicalFlows") (cons (text "EnergyPrices") nil)))
      end)

abbrev payload : GapfillPayload
payload = record {
  job = "entsoe_fms";
  start = "2024-01-01";
  end_value = "";
  tables = "PhysicalFlows" ∷ "EnergyPrices" ∷ [];
}

abbrev backfill : PreparedAction
backfill = record {
  crawler_name = "entsoe_fms";
  action_id = "gapfill_backfill";
  action_label = "Gapfill backfill";
  description = "Gapfill backfill for entsoe_fms from 2024-01-01.";
  effective_config = field "enable" (text "yes") end;
  config_overrides = end;
  action_payload = field "job" (text "entsoe_fms") (
      field "start" (text "2024-01-01") (
        field "end" (text "") (
          field "tables" (list (cons (text "PhysicalFlows") (cons (text "EnergyPrices") nil)))
            end)));
  run_post_scripts = false;
  executor = run_gapfill_backfill payload;
  requires_crawler = false;
}

abbrev settings : Settings
settings = record {
  max_gap_periods = 24;
  candidate_periods = none;
  donor_context_periods = 6;
  donor_search_radius = 40320;
  refinement_periods = 3;
}

abbrev methods : Dict String
methods = ("EnergyPrices", "linear") ∷ []

-- a table that is not known comes before a method that is not
not_known :
    select_tables "exact" [] settings ("Prices" ∷ "EnergyPrices" ∷ [])
    ≡ value_error (unknown_table "Prices")
unfolding select_tables
not_known = refl

no_such_method :
    select_tables "exact" [] settings ("EnergyPrices" ∷ "Prices" ∷ [])
    ≡ value_error (unknown_method "exact")
unfolding select_tables Dict.get
no_such_method = refl
