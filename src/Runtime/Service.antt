-- ===== src/Runtime/Service.antt =====
-- The state of `CrawlerRunService` of crawler_admin/runtime_service.py and what changes it:
-- `start_action` after the action was prepared, `_execute_run` up to its `try` block and in its
-- `finally` block, and a restart of the process. Each of them is one step: `start_action` holds the
-- guard, and a thread's statements change only its own run. A thread stands in `threads` from its
-- start to the end of `_execute_run`, with the time it noted when it began. The database is taken
-- to answer.
pub mod Invariant
pub mod Beginning
pub mod Ending
pub mod Reach
use open_energy_data_server.Common.{
  ℕ, zero, suc, ◌+◌, ◌-◌, String, ◌≡◌, Bool, true, false, Option, none, some, List, [], ◌∷◌, ◌++◌,
  ltb, leb, ◌==◌, if◌then◌else◌,
}
use open_energy_data_server.Common.Text.{◌<>◌, decimal}
use open_energy_data_server.Common.Strip.{strip, is_empty}
use open_energy_data_server.Common.Dict
use open_energy_data_server.Common.Dict.{Dict}
use open_energy_data_server.Yaml.{Value, int, negative}
use open_energy_data_server.Runtime.Rows.{
  Status, queued, running, succeeded, failed, RunRecord, get_run, update_run, mark_interrupted_runs,
}
use open_energy_data_server.Runtime.Action.{Ended, returned, raised, exited, PreparedAction}

pub record RunThread : Type 0 where
  pub run_id : ℕ
  pub prepared : PreparedAction
  pub started_at : Option ℕ

pub record RunService : Type 0 where
  pub logs_dir : String
  pub rows : List RunRecord
  pub next_run_id : ℕ
  pub active_runs : Dict ℕ
  pub threads : List RunThread

-- `round((finish_dt - start_dt).total_seconds(), 3)`, of whole seconds
unfoldable pub duration_seconds : ℕ → ℕ → Value
duration_seconds started_at finished_at =
    if leb started_at finished_at
    then int (finished_at - started_at)
    else negative (started_at - finished_at)

-- the row that `_create_run_record` inserts, with the log path it sets at once
unfoldable pub new_row : String → ℕ → PreparedAction → String → ℕ → RunRecord
unfolding decimal
new_row logs_dir run_id p trigger_source created_at = record {
  run_id = run_id;
  crawler_name = p.crawler_name;
  action_id = p.action_id;
  action_label = p.action_label;
  trigger_source = trigger_source;
  status = queued;
  created_at = created_at;
  started_at = none;
  finished_at = none;
  duration_seconds = none;
  log_path = logs_dir <> "/" <> p.crawler_name <> "-" <> decimal run_id <> ".log";
  summary = none;
  error_message = none;
  config_overrides = p.config_overrides;
  action_payload = p.action_payload;
}

unfoldable pub create_run_record : RunService → PreparedAction → String → ℕ → RunService × ℕ
unfolding new_row
create_run_record s p trigger_source created_at = (
  record s {
    rows = s.rows ++ new_row s.logs_dir s.next_run_id p trigger_source created_at ∷ [];
    next_run_id = s.next_run_id + 1;
  },
  s.next_run_id,
)

unfoldable pub is_locked : RunService → String → Bool
is_locked s crawler_name = Dict.has crawler_name s.active_runs

-- `start_action` after `prepare_action`, with `none` for its `LockError`
unfoldable pub start_prepared :
    RunService → String → PreparedAction → String → ℕ → RunService × Option ℕ
unfolding is_locked create_run_record
start_prepared s crawler_name prepared trigger_source now =
    let (created, run_id) = create_run_record s prepared trigger_source now in
    if is_locked s crawler_name then (s, none) else (
      record created {
        active_runs = Dict.put crawler_name run_id created.active_runs;
        threads =
            record { run_id = run_id; prepared = prepared; started_at = none } ∷ created.threads;
      },
      some run_id,
    )

-- `self._active_runs.get(crawler_name)`, then the row of that run
unfoldable pub get_active_run : RunService → String → Option RunRecord
get_active_run s crawler_name = elim (Dict.get crawler_name s.active_runs) [
  | none ↦ none
  | some run_id ↦ get_run run_id s.rows
]

unfoldable pub get_thread : ℕ → List RunThread → Option RunThread
get_thread run_id [] = none
get_thread run_id (t ∷ threads) = if t.run_id == run_id then some t else get_thread run_id threads

unfoldable pub set_started : ℕ → ℕ → List RunThread → List RunThread
set_started run_id now [] = []
set_started run_id now (t ∷ threads) =
    (if t.run_id == run_id then record t { started_at = some now } else t)
    ∷ set_started run_id now threads

-- `self._active_threads.pop(run_id, None)`
unfoldable pub drop_thread : ℕ → List RunThread → List RunThread
drop_thread run_id [] = []
drop_thread run_id (t ∷ threads) =
    let rest = drop_thread run_id threads in if t.run_id == run_id then rest else t ∷ rest

unfoldable pub set_running : ℕ → RunRecord → RunRecord
set_running now r = record r { status = running; started_at = some now }

-- `_execute_run` up to its `try`
unfoldable pub begin_run : RunService → ℕ → ℕ → RunService
unfolding update_run set_running set_started
begin_run s run_id now = record s {
  rows = update_run run_id (set_running now) s.rows;
  threads = set_started run_id now s.threads;
}

-- the variables `status`, `summary` and `error_message` as the `finally` block finds them
unfoldable pub status_after : Ended String → Status
status_after (returned _) = succeeded
status_after (raised _ _) = failed
status_after exited = succeeded

unfoldable pub summary_after : PreparedAction → Ended String → String
unfolding is_empty
summary_after p (returned result_summary) =
    if is_empty result_summary then p.description else result_summary
summary_after p (raised _ _) = p.action_label <> " failed."
summary_after p exited = p.description

unfoldable pub error_after : Ended String → Option String
unfolding is_empty strip
error_after (returned _) = none
error_after (raised message name) = some (if is_empty (strip message) then name else strip message)
error_after exited = none

unfoldable pub set_finished : PreparedAction → ℕ → ℕ → Ended String → RunRecord → RunRecord
unfolding duration_seconds status_after summary_after error_after
set_finished p started_at finished_at ending r = record r {
  status = status_after ending;
  finished_at = some finished_at;
  duration_seconds = some (duration_seconds started_at finished_at);
  summary = some (summary_after p ending);
  error_message = error_after ending;
}

-- the `finally` block of `_execute_run`
unfoldable pub finish_run : RunService → ℕ → PreparedAction → ℕ → ℕ → Ended String → RunService
unfolding update_run set_finished drop_thread
finish_run s run_id p started_at finished_at ending = record s {
  rows = update_run run_id (set_finished p started_at finished_at ending) s.rows;
  active_runs = Dict.pop p.crawler_name s.active_runs;
  threads = drop_thread run_id s.threads;
}

-- A new process makes the service anew from the table: `__init__`. The threads of the old process,
-- which are daemons, are gone.
unfoldable pub restart : RunService → ℕ → RunService
unfolding mark_interrupted_runs
restart s now = record {
  logs_dir = s.logs_dir;
  rows = mark_interrupted_runs now s.rows;
  next_run_id = s.next_run_id;
  active_runs = [];
  threads = [];
}
