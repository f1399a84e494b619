-- ===== src/Runtime/Prepared.antt =====
-- The `PreparedAction` that each branch of `prepare_action` of crawler_admin/runtime_service.py builds,
-- with the dictionaries of its payload.
use open_energy_data_server.Common.{
  ℕ, suc, String, Bool, true, false, Option, none, some, List, [], ◌∷◌, str_eq, if◌then◌else◌,
}
use open_energy_data_server.Common.Text.{◌<>◌}
use open_energy_data_server.Common.Strip.{is_empty}
use open_energy_data_server.Yaml
use open_energy_data_server.Yaml.{
  Value, text, int, list, dict, Fields, end, field, Items, nil, cons,
}
use open_energy_data_server.Runtime.Action.{
  PreparedAction, Executor, run_default, BackfillPayload, GapfillPayload, ForecastPayload,
}
use open_energy_data_server.Runtime.Definitions.{CrawlerOverview}
use open_energy_data_server.Runtime.Forms.{ActionDefinition}

unfoldable pub text_items : List String → Items
text_items [] = nil
text_items (t ∷ ts) = cons (text t) (text_items ts)

unfoldable pub dict_items : List Fields → Items
dict_items [] = nil
dict_items (d ∷ ds) = cons (dict d) (dict_items ds)

-- `effective_config.update(config_overrides)`
unfoldable pub update : Fields → Fields → Fields
update config end = config
update config (field k v overrides) = update (Yaml.put k v config) overrides

-- the definitions by id: of two with one id the later counts
unfoldable pub definition_of : String → List ActionDefinition → Option ActionDefinition
definition_of action_id [] = none
definition_of action_id (d ∷ ds) = elim (definition_of action_id ds) [
  | some later ↦ some later
  | none ↦ if str_eq d.action_id action_id then some d else none
]

-- the first position of the item
unfoldable pub index_of : String → List String → ℕ
index_of item [] = 0
index_of item (x ∷ xs) = if str_eq x item then 0 else suc (index_of item xs)

-- the executor `lambda crawler: self._run_default(crawler)`, with the overrides applied
unfoldable pub default_run :
    CrawlerOverview → String → String → String → Fields → Fields → PreparedAction
unfolding update
default_run overview action_id action_label description config_overrides action_payload = record {
  crawler_name = overview.crawler_name;
  action_id = action_id;
  action_label = action_label;
  description = description;
  effective_config = update overview.effective_config config_overrides;
  config_overrides = config_overrides;
  action_payload = action_payload;
  run_post_scripts = true;
  executor = run_default;
  requires_crawler = true;
}

-- a run of a helper, which leaves the configuration and runs no scripts after it
unfoldable pub helper_run :
    CrawlerOverview → String → String → String → Fields → Executor → Bool → PreparedAction
helper_run overview action_id action_label description action_payload executor requires_crawler =
    record {
      crawler_name = overview.crawler_name;
      action_id = action_id;
      action_label = action_label;
      description = description;
      effective_config = overview.effective_config;
      config_overrides = end;
      action_payload = action_payload;
      run_post_scripts = false;
      executor = executor;
      requires_crawler = requires_crawler;
    }

-- `{"data_item": …, …, "cadence": cadence}`
unfoldable pub backfill_fields : BackfillPayload → Fields
backfill_fields p = field "data_item" (text p.data_item) (
    field "start" (text p.start) (
      field "end" (text p.end_value) (
        field "target_files_dir_index" (int p.target_files_dir_index)
          (field "cadence" (text p.cadence) end))))

unfoldable pub gapfill_fields : GapfillPayload → Fields
unfolding text_items
gapfill_fields p = field "job" (text p.job) (
    field "start" (text p.start)
      (field "end" (text p.end_value) (field "tables" (list (text_items p.tables)) end)))

unfoldable pub forecast_fields : ForecastPayload → Fields
forecast_fields p = field "run_mode" (text p.run_mode) (
    field "target_date" (text p.target_date) (
      field "train_days" (int p.train_days) (
        field "backtest_days" (int p.backtest_days)
          (field "model_backend" (text p.model_backend) end))))

-- the text before a full stop, with ` to …` where an end is given
unfoldable pub up_to : String → String → String
unfolding is_empty
up_to description end_value =
    if is_empty end_value then description <> "." else description <> " to " <> end_value <> "."
