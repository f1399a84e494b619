-- ===== src/Runtime/Action.antt =====
-- `PreparedAction` of crawler_admin/runtime_service.py and what its executor does: the `_run_…`
-- methods, `_run_post_scripts` and the body of `_execute_run`. A crawler and a process are outside.
-- What they are asked for ends with a value, in an `Exception` of a text and a class name, or in an
-- exception that is no `Exception`, as `SystemExit` is. What is printed to the log is not modelled.
pub mod Laws
use open_energy_data_server.Common.{
  ℕ, zero, suc, String, Bool, true, false, not, Option, none, some, List, [], ◌∷◌, ◌++◌,
  if◌then◌else◌, str_eq, ◌&&◌,
}
use open_energy_data_server.Common.Text.{◌<>◌, decimal}
use open_energy_data_server.Common.Strip.{is_empty}
use open_energy_data_server.Yaml
use open_energy_data_server.Yaml.{Value, list, text, int, Fields, end, field, Items, nil, cons}

pub data Ended {ℓ} (A : Type ℓ) : Type ℓ where
  returned : A → Ended A
  raised : String → String → Ended A
  exited : Ended A

infixl 20 ◌then◌
-- the next statement, where the one before returned
unfoldable pub ◌then◌ {ℓ κ} : {A : Type ℓ} {B : Type κ} → Ended A → (A → Ended B) → Ended B
returned a then next = next a
raised message name then next = raised message name
exited then next = exited

-- the code that a process ends with: negative after a signal
pub data ReturnCode : Type 0 where
  exit : ℕ → ReturnCode
  signal : ℕ → ReturnCode

unfoldable pub is_success : ReturnCode → Bool
is_success (exit zero) = true
is_success _ = false

unfoldable pub code_text : ReturnCode → String
unfolding decimal
code_text (exit n) = decimal n
code_text (signal n) = "-" <> decimal n

pub record BackfillPayload : Type 0 where
  pub data_item : String
  pub start : String
  pub end_value : String
  pub target_files_dir_index : ℕ
  pub cadence : String

pub record GapfillPayload : Type 0 where
  pub job : String
  pub start : String
  pub end_value : String
  pub tables : List String

pub record ForecastPayload : Type 0 where
  pub run_mode : String
  pub target_date : String
  pub train_days : ℕ
  pub backtest_days : ℕ
  pub model_backend : String

-- the four functions that `prepare_action` hands on as `executor`
pub data Executor : Type 0 where
  run_default : Executor
  run_entsoe_backfill : BackfillPayload → Executor
  run_gapfill_backfill : GapfillPayload → Executor
  run_price_forecast : ForecastPayload → Executor

pub record PreparedAction : Type 0 where
  pub crawler_name : String
  pub action_id : String
  pub action_label : String
  pub description : String
  pub effective_config : Fields
  pub config_overrides : Fields
  pub action_payload : Fields
  pub run_post_scripts : Bool
  pub executor : Executor
  pub requires_crawler : Bool

-- What the service asks of the crawlers' modules and of the operating system. `str` is Python's,
-- and `type_error` the text of the `TypeError` of `subprocess.run` for an item that is no text.
pub record Outside (Crawler : Type 0) : Type 0 where
  pub build_crawler_instance : String → Fields → Ended Crawler
  pub run : Crawler → Ended (Unit {0})
  pub backwards_update : Crawler → String → String → ℕ → Ended (Unit {0})
  pub subprocess : List String → Ended ReturnCode
  pub str : Value → String
  pub type_error : Value → String

unfoldable pub join_comma : List String → String
join_comma [] = ""
join_comma (x ∷ []) = x
join_comma (x ∷ y ∷ xs) = x <> "," <> join_comma (y ∷ xs)

-- the arguments after `sys.executable`
unfoldable pub gapfill_command : GapfillPayload → List String
unfolding is_empty join_comma
gapfill_command p =
    "scripts/gapfill_timeseries.py" ∷ "--job" ∷ p.job ∷ "--start" ∷ p.start ∷ []
    ++ (if is_empty p.end_value then [] else "--end" ∷ p.end_value ∷ [])
    ++ elim p.tables [ [] ↦ [] | table ∷ tables ↦ "--tables" ∷ join_comma (table ∷ tables) ∷ [] ]

unfoldable pub forecast_command : ForecastPayload → List String
unfolding is_empty decimal
forecast_command p =
    "scripts/run_price_forecast.py"
      ∷ "--train-days"
      ∷ decimal p.train_days
      ∷ "--backtest-days"
      ∷ decimal p.backtest_days
      ∷ "--model-backend"
      ∷ p.model_backend
      ∷ []
    ++ (if is_empty p.target_date then [] else "--target-date" ∷ p.target_date ∷ [])
    ++ (if str_eq p.run_mode "self_test" then "--self-test" ∷ [] else [])

unfoldable pub gapfill_done : GapfillPayload → String
unfolding is_empty
gapfill_done p =
    if is_empty p.end_value
    then "Gapfill backfill completed for " <> p.job <> " from " <> p.start <> "."
    else "Gapfill backfill completed for " <> p.job <> " from " <> p.start <> " to " <> p.end_value
      <> "."

unfoldable pub forecast_done : ForecastPayload → String
unfolding is_empty
forecast_done p =
    if str_eq p.run_mode "self_test"
    then "Price forecast self-test completed."
    else if is_empty p.target_date
    then "Price forecast completed."
    else "Price forecast completed for " <> p.target_date <> "."

unfoldable pub backfill_done : BackfillPayload → String
backfill_done p =
    if str_eq p.cadence "single"
    then "Backfill completed for " <> p.data_item <> "."
    else "Backfill completed for " <> p.data_item <> " from " <> p.start <> " to " <> p.end_value
      <> "."

-- `if completed.returncode != 0: raise RuntimeError(…)`
unfoldable pub checked : String → ReturnCode → Ended (Unit {0})
unfolding is_success code_text
checked what c =
    if is_success c
    then returned tt
    else raised (what <> " exited with code " <> code_text c <> ".") "RuntimeError"

-- `scripts` where it is a list, and nothing to run otherwise
unfoldable pub scripts_of : Option Value → Items
scripts_of (some (list scripts)) = scripts
scripts_of _ = nil

module _ {Crawler : Type 0} (o : Outside Crawler) where
  -- A crawler is there where the executor wants one: `None` has no such methods.
  unfoldable pub with_crawler {ℓ} : {A : Type ℓ} → Option Crawler → (Crawler → Ended A) → Ended A
  with_crawler none use_it = raised "'NoneType' object has no such attribute" "AttributeError"
  with_crawler (some crawler) use_it = use_it crawler

  unfoldable pub execute : Executor → Option Crawler → Ended String
  unfolding ◌then◌ with_crawler checked gapfill_command forecast_command gapfill_done forecast_done
      backfill_done
  execute run_default crawler =
      with_crawler crawler o.run then (λ _. returned "Run completed successfully.")
  execute (run_entsoe_backfill p) crawler =
      with_crawler crawler (λ c. o.backwards_update c p.start p.end_value p.target_files_dir_index)
      then (λ _. returned (backfill_done p))
  execute (run_gapfill_backfill p) crawler =
      o.subprocess (gapfill_command p)
      then checked "Gapfill backfill"
      then (λ _. returned (gapfill_done p))
  execute (run_price_forecast p) crawler =
      o.subprocess (forecast_command p)
      then checked "Price forecast"
      then (λ _. returned (forecast_done p))

  unfoldable pub start_script : Value → Ended ReturnCode
  start_script (text script) = o.subprocess (script ∷ [])
  start_script script = raised (o.type_error script) "TypeError"

  unfoldable pub run_scripts : Items → Ended (Unit {0})
  unfolding ◌then◌ checked start_script
  run_scripts nil = returned tt
  run_scripts (cons script scripts) =
      start_script script
      then checked ("Post-run script '" <> o.str script <> "'")
      then (λ _. run_scripts scripts)

  unfoldable pub run_post_scripts : Fields → Ended (Unit {0})
  unfolding run_scripts scripts_of
  run_post_scripts effective_config =
      run_scripts (scripts_of (Yaml.get "post_run_scripts" effective_config))

  unfoldable pub some_crawler : PreparedAction → Ended (Option Crawler)
  unfolding ◌then◌
  some_crawler p =
      if p.requires_crawler
      then o.build_crawler_instance p.crawler_name p.effective_config
      then (λ crawler. returned (some crawler))
      else returned none

  -- `if prepared.run_post_scripts: …`
  unfoldable pub post_scripts : PreparedAction → Ended (Unit {0})
  unfolding run_post_scripts
  post_scripts p = if p.run_post_scripts then run_post_scripts p.effective_config else returned tt

  -- the `try` block of `_execute_run`, with the summary the executor gave
  unfoldable pub run_body : PreparedAction → Ended String
  unfolding ◌then◌ some_crawler execute post_scripts
  run_body p =
      some_crawler p
      then execute p.executor
      then (λ result_summary. post_scripts p then (λ _. returned result_summary))
