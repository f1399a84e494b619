-- ===== src/Runtime/Tests.antt =====
-- The run service at concrete requests, runs and restarts.
use open_energy_data_server.Common.{
  ℕ, String, ◌≡◌, refl, true, false, Option, none, some, ◌↔◌, ◌≢◌, All, str_eq, if◌then◌else◌, ◌==◌,
  str_eq,
}
use open_energy_data_server.Common.Dict
use open_energy_data_server.Common.Text.{decimal}
use open_energy_data_server.Yaml
use open_energy_data_server.Yaml.{Value, text, int, list, Fields, end, field, Items, nil, cons}
use open_energy_data_server.Runtime.Rows.Latest.{
  IsLatestIn, IsAmong, get_latest_runs_map-IsLatestIn,
}
use open_energy_data_server.Runtime.Rows.{
  RunRecord, get_run, is_active, active_status, mark_interrupted, update_run, interrupted,
  get_latest_runs_map, list_runs,
}
use open_energy_data_server.Runtime.Action.{
  PreparedAction, run_default, run_price_forecast, ForecastPayload, Outside, Ended, returned,
  raised, exit, ◌then◌, run_body, some_crawler, execute, scripts_of, checked, post_scripts,
}
use open_energy_data_server.Runtime.Action.Laws.{AllDone, IsGiven, IsExecuted, run_body_returns}
use open_energy_data_server.Runtime.Definitions.{CrawlerOverview, Surroundings}
use open_energy_data_server.Runtime.Inputs.{ok, Python, ◌>>=◌, ◌>>◌}
use open_energy_data_server.Runtime.Prepare.{prepare_action}
use open_energy_data_server.Runtime.Prepare.Accepts.{IsPrepared}
use open_energy_data_server.Runtime.Prepare.Laws.{prepare_action-IsPrepared}
use open_energy_data_server.Runtime.Start.{start_action, IsAnswered, start_action_answers}
use open_energy_data_server.Runtime.Service.{
  RunService, RunThread, start_prepared, begin_run, finish_run, restart, is_locked, get_thread,
  new_row, create_run_record, set_started, set_running, set_finished,
}
use open_energy_data_server.Runtime.Service.Invariant.{IsActiveRun}
use open_energy_data_server.Runtime.Service.Reach.{
  Reachable, at_first, after, started, began, finished, restarted, initial, one_active_run,
  finish_run_frees, final_run_stays, restart_settles, IsFinalOf,
}

abbrev action : PreparedAction
action = record {
  crawler_name = "smard";
  action_id = "run_now";
  action_label = "Run once";
  description = "One-off";
  effective_config = end;
  config_overrides = end;
  action_payload = end;
  run_post_scripts = true;
  executor = run_default;
  requires_crawler = true;
}

abbrev one_queued : RunService
one_queued = (start_prepared (initial "logs") "smard" action "manual" 100).0

abbrev one_running : RunService
one_running = begin_run one_queued 1 101

abbrev the_thread : RunThread
the_thread = record { run_id = 1; prepared = action; started_at = some 101 }

abbrev queued_row : RunRecord
queued_row = new_row "logs" 1 action "manual" 100

abbrev failure : Ended String
failure = raised "no data" "ValueError"

one_queued-Reachable : Reachable one_queued
one_queued-Reachable =
    after (initial "logs") one_queued (at_first "logs")
      (started (initial "logs") action "manual" 100)

one_running-Reachable : Reachable one_running
unfolding start_prepared create_run_record is_locked get_thread Dict.has
one_running-Reachable =
    after one_queued one_running one_queued-Reachable (
      began one_queued 1 (record { run_id = 1; prepared = action; started_at = none }) 101 refl
        refl)

queued_run : IsActiveRun one_queued 1 "smard"
unfolding start_prepared create_run_record is_locked Dict.has get_run is_active active_status
    new_row
queued_run = record { row = queued_row; found = refl; crawler = refl; active = refl }

abbrev the_run : ℕ
the_run = 1

one_active_run_example : the_run ≡ the_run
one_active_run_example =
    one_active_run one_queued "smard" 1 1 one_queued-Reachable queued_run queued_run

running_thread : get_thread 1 one_running.threads ≡ some the_thread
unfolding start_prepared create_run_record is_locked Dict.has begin_run get_thread set_started
running_thread = refl

abbrev one_failed : RunService
one_failed = finish_run one_running 1 action 101 107 failure

finish_run_frees_example :
    (is_locked one_failed "smard" ≡ false)
    × ((x : RunRecord) × (y : RunRecord) × (get_run 1 one_running.rows ≡ some x)
        × (get_run 1 one_failed.rows ≡ some y)
        × IsFinalOf x 101 107 failure y)
    × ((k : ℕ) → (1 == k) ≡ false → get_run k one_failed.rows ≡ get_run k one_running.rows)
finish_run_frees_example =
    finish_run_frees one_running 1 the_thread 101 107 failure one_running-Reachable running_thread

abbrev failed_row : RunRecord
failed_row = set_finished action 101 107 failure (set_running 101 queued_row)

one_failed-Reachable : Reachable one_failed
one_failed-Reachable =
    after one_running one_failed one_running-Reachable
      (finished one_running 1 the_thread 101 107 failure running_thread refl)

failed_found : get_run 1 one_failed.rows ≡ some failed_row
unfolding start_prepared create_run_record is_locked Dict.has begin_run finish_run get_run
    update_run set_running set_finished new_row
failed_found = refl

failed_final : is_active failed_row ≡ false
unfolding is_active active_status set_finished
failed_final = refl

final_run_stays_example : get_run 1 (restart one_failed 200).rows ≡ some failed_row
final_run_stays_example =
    final_run_stays one_failed (restart one_failed 200) 1 failed_row one_failed-Reachable
      (restarted one_failed 200) failed_found failed_final

queued_found : get_run 1 one_queued.rows ≡ some queued_row
unfolding start_prepared create_run_record is_locked Dict.has get_run new_row
queued_found = refl

restart_settles_example :
    ((n : String) → is_locked (restart one_queued 200) n ≡ false)
    × (get_run 1 (restart one_queued 200).rows ≡ some (mark_interrupted 200 queued_row))
    × (is_active queued_row ≡ false → mark_interrupted 200 queued_row ≡ queued_row)
    × (is_active queued_row ≡ true → (mark_interrupted 200 queued_row).status ≡ interrupted)
    × (is_active queued_row ≡ true → (mark_interrupted 200 queued_row).finished_at ≢ none)
restart_settles_example = restart_settles one_queued 200 1 queued_row queued_found

-- Two scripts, of which the crawler's run starts both.
abbrev with_scripts : PreparedAction
with_scripts = record action {
  effective_config =
      field "post_run_scripts" (list (cons (text "a.py") (cons (text "b.py") nil))) end;
}

abbrev all_well : Outside ℕ
all_well = record {
  build_crawler_instance = λ name config. returned 7;
  run = λ crawler. returned tt;
  backwards_update = λ crawler start finish index. returned tt;
  subprocess = λ command. returned (exit 0);
  str = λ v. elim v [ text t ↦ t | _ ↦ "" ];
  type_error = λ v. "";
}

run_body_returns_example :
    (run_body all_well with_scripts ≡ returned "Run completed successfully.") ↔ (
      (crawler : Option ℕ) × IsGiven all_well with_scripts crawler
      × IsExecuted all_well run_default crawler "Run completed successfully."
      × (true ≡ true
          → AllDone all_well
              (scripts_of (Yaml.get "post_run_scripts" with_scripts.effective_config))))
run_body_returns_example = run_body_returns all_well with_scripts "Run completed successfully."

scripts_run : run_body all_well with_scripts ≡ returned "Run completed successfully."
unfolding run_body some_crawler execute post_scripts ◌then◌ Yaml.get checked
scripts_run = refl

abbrev python : Python
python = record {
  int_of =
      λ t. if str_eq t "30" then some (int 30) else if str_eq t "0" then some (int 0) else none;
  str = λ v. elim v [ text t ↦ t | int n ↦ decimal n | _ ↦ "" ];
  lower = λ t. t;
  fromisoformat = λ t. some 0;
  strptime = λ t format. some 0;
}

abbrev surroundings : Surroundings
surroundings = record { getenv = λ name. none; this_year = 2026; int_of = λ t. none; str = λ v. "" }

abbrev entsoe_api : CrawlerOverview
entsoe_api = record {
  crawler_name = "entsoe_api";
  has_card = true;
  raw_config = field "enable" (text "yes") end;
  effective_config = field "enable" (text "yes") end;
}

abbrev forecast_form : Fields
forecast_form = field "train_days" (text " 30 ") (field "backtest_days" (text "0") end)

abbrev forecast_payload : ForecastPayload
forecast_payload = record {
  run_mode = "forecast";
  target_date = "";
  train_days = 30;
  backtest_days = 0;
  model_backend = "auto";
}

abbrev forecast : PreparedAction
forecast = record {
  crawler_name = "entsoe_api";
  action_id = "price_forecast";
  action_label = "Price forecast";
  description = "Price forecast run.";
  effective_config = field "enable" (text "yes") end;
  config_overrides = end;
  action_payload = field "run_mode" (text "forecast") (
      field "target_date" (text "") (
        field "train_days" (int 30)
          (field "backtest_days" (int 0) (field "model_backend" (text "auto") end))));
  run_post_scripts = false;
  executor = run_price_forecast forecast_payload;
  requires_crawler = false;
}

forecast_prepared :
    prepare_action python (ok nil) surroundings entsoe_api "price_forecast" forecast_form
    ≡ ok forecast
unfolding prepare_action Yaml.get ◌>>=◌ ◌>>◌
forecast_prepared = refl

prepare_action-IsPrepared_example : IsPrepared entsoe_api "price_forecast" forecast
prepare_action-IsPrepared_example =
    prepare_action-IsPrepared python (ok nil) surroundings entsoe_api "price_forecast" forecast_form
      forecast forecast_prepared

start_action_answers_example :
    let (s', reply) =
      start_action python
        (ok nil)
        surroundings
        one_queued
        entsoe_api
        "price_forecast"
        forecast_form
        "manual"
        300 in
    IsAnswered one_queued s' "entsoe_api" "price_forecast"
      (prepare_action python (ok nil) surroundings entsoe_api "price_forecast" forecast_form)
      reply
start_action_answers_example =
    start_action_answers python (ok nil) surroundings one_queued entsoe_api "price_forecast"
      forecast_form "manual" 300 one_queued-Reachable

get_latest_runs_map-IsLatestIn_example :
    ((r : RunRecord)
      → Dict.get "smard" (get_latest_runs_map one_failed.rows) ≡ some r
      → IsAmong r (list_runs none 200 one_failed.rows)
        × (r.crawler_name ≡ "smard")
        × IsLatestIn (list_runs none 200 one_failed.rows) r)
    × ((Dict.get "smard" (get_latest_runs_map one_failed.rows) ≡ none)
        ↔ All (λ x. str_eq x.crawler_name "smard" ≡ false) (list_runs none 200 one_failed.rows))
get_latest_runs_map-IsLatestIn_example = get_latest_runs_map-IsLatestIn one_failed.rows "smard"
