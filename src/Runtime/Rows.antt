-- ===== src/Runtime/Rows.antt =====
-- The table `crawler_runs` of crawler_admin/runtime_service.py with the statements on it. A time is
-- its number of seconds. A column that holds JSON is the value written to it, which reading gives
-- back. The table stands in the order of insertion, and its key counts up.
pub mod Laws
pub mod Latest
use open_energy_data_server.Common.{
  ℕ, ◌-◌, ◌+◌, String, Bool, true, false, not, Option, none, some, List, [], ◌∷◌, ◌++◌, map, ◌&&◌,
  str_eq, ltb, leb, ◌==◌, if◌then◌else◌, zero, suc, length,
}
use open_energy_data_server.Common.Dict
use open_energy_data_server.Common.Dict.{Dict}
use open_energy_data_server.Yaml.{Value, int, negative, Fields}

pub data Status : Type 0 where
  queued : Status
  running : Status
  succeeded : Status
  failed : Status
  interrupted : Status

pub record RunRecord : Type 0 where
  pub run_id : ℕ
  pub crawler_name : String
  pub action_id : String
  pub action_label : String
  pub trigger_source : String
  pub status : Status
  pub created_at : ℕ
  pub started_at : Option ℕ
  pub finished_at : Option ℕ
  pub duration_seconds : Option Value
  pub log_path : String
  pub summary : Option String
  pub error_message : Option String
  pub config_overrides : Fields
  pub action_payload : Fields

unfoldable pub active_status : Status → Bool
active_status queued = true
active_status running = true
active_status _ = false

-- `status IN ('queued', 'running')`
unfoldable pub is_active : RunRecord → Bool
unfolding active_status
is_active record_ = active_status record_.status

unfoldable pub succeeded_status : Status → Bool
succeeded_status succeeded = true
succeeded_status _ = false

-- `COALESCE(column, value)`
unfoldable pub coalesce {ℓ} : {A : Type ℓ} → Option A → A → Option A
coalesce none value = some value
coalesce (some given) value = some given

abbrev pub restarted : String
restarted = "Admin service restarted while the run was active."

unfoldable pub mark_interrupted : ℕ → RunRecord → RunRecord
unfolding is_active coalesce
mark_interrupted timestamp r =
    if is_active r
    then record r {
      status = interrupted;
      finished_at = coalesce r.finished_at timestamp;
      summary = coalesce r.summary restarted;
      error_message = coalesce r.error_message restarted;
    }
    else r

unfoldable pub mark_interrupted_runs : ℕ → List RunRecord → List RunRecord
unfolding mark_interrupted
mark_interrupted_runs timestamp rows = map (mark_interrupted timestamp) rows

-- `SELECT * FROM crawler_runs WHERE run_id = ?`, its first row
unfoldable pub get_run : ℕ → List RunRecord → Option RunRecord
get_run run_id [] = none
get_run run_id (r ∷ rows) = if r.run_id == run_id then some r else get_run run_id rows

-- `UPDATE crawler_runs SET … WHERE run_id = ?`
unfoldable pub update_run : ℕ → (RunRecord → RunRecord) → List RunRecord → List RunRecord
update_run run_id change [] = []
update_run run_id change (r ∷ rows) =
    (if r.run_id == run_id then change r else r) ∷ update_run run_id change rows

-- `WHERE crawler_name = ?`, where a name is given that is not empty
unfoldable pub of_crawler : Option String → RunRecord → Bool
of_crawler none r = true
of_crawler (some name) r = if str_eq name "" then true else str_eq r.crawler_name name

unfoldable pub selected : Option String → List RunRecord → List RunRecord
unfolding of_crawler
selected name [] = []
selected name (r ∷ rows) =
    let rest = selected name rows in if of_crawler name r then r ∷ rest else rest

-- `ORDER BY run_id DESC`
unfoldable pub insert_desc : RunRecord → List RunRecord → List RunRecord
insert_desc r [] = r ∷ []
insert_desc r (x ∷ xs) = if leb x.run_id r.run_id then r ∷ x ∷ xs else x ∷ insert_desc r xs

unfoldable pub order_desc : List RunRecord → List RunRecord
unfolding insert_desc
order_desc [] = []
order_desc (r ∷ rows) = insert_desc r (order_desc rows)

-- `LIMIT ?`, of a limit that is not negative
unfoldable pub take : ℕ → List RunRecord → List RunRecord
take zero rows = []
take (suc limit) [] = []
take (suc limit) (r ∷ rows) = r ∷ take limit rows

unfoldable pub list_runs : Option String → ℕ → List RunRecord → List RunRecord
unfolding selected order_desc take
list_runs crawler_name limit rows = take limit (order_desc (selected crawler_name rows))

-- the loop of `get_latest_runs_map`
unfoldable pub latest_loop : Dict RunRecord → List RunRecord → Dict RunRecord
latest_loop latest [] = latest
latest_loop latest (r ∷ records) =
    latest_loop
      (if Dict.has r.crawler_name latest then latest else Dict.put r.crawler_name r latest) records

unfoldable pub get_latest_runs_map : List RunRecord → Dict RunRecord
unfolding list_runs latest_loop
get_latest_runs_map rows = latest_loop [] (list_runs none 200 rows)

pub record ActionRuntimeBenchmark : Type 0 where
  pub action_id : String
  pub action_label : String
  pub sample_count : ℕ
  pub success_count : ℕ
  pub failure_count : ℕ
  pub success_rate : String
  pub latest_seconds : Option Value
  pub latest_finished_at : Option ℕ

-- the filter of `get_runtime_benchmarks`
unfoldable pub is_given {ℓ} : {A : Type ℓ} → Option A → Bool
is_given none = false
is_given (some _) = true

unfoldable pub finished_runs : List RunRecord → List RunRecord
unfolding is_given is_active
finished_runs [] = []
finished_runs (r ∷ rows) =
    let rest = finished_runs rows in
    if is_given r.duration_seconds && not (is_active r) then r ∷ rest else rest

-- `grouped_records.setdefault(record.action_id, []).append(record)`
unfoldable pub append_to : String → RunRecord → Dict (List RunRecord) → Dict (List RunRecord)
append_to key r [] = (key, r ∷ []) ∷ []
append_to key r ((k, group) ∷ groups) =
    if str_eq k key then (k, group ++ r ∷ []) ∷ groups else (k, group) ∷ append_to key r groups

unfoldable pub group_by_action : Dict (List RunRecord) → List RunRecord → Dict (List RunRecord)
unfolding append_to
group_by_action groups [] = groups
group_by_action groups (r ∷ records) = group_by_action (append_to r.action_id r groups) records

unfoldable pub count_succeeded : List RunRecord → ℕ
unfolding succeeded_status
count_succeeded [] = 0
count_succeeded (r ∷ rows) = (if succeeded_status r.status then 1 else 0) + count_succeeded rows

-- The rate is a rounded percentage of the two counts; how it is rounded is the argument `rate`.
module _ (rate : ℕ → ℕ → String) where
  unfoldable pub benchmarks_of : Dict (List RunRecord) → List ActionRuntimeBenchmark
  unfolding count_succeeded
  benchmarks_of [] = []
  benchmarks_of ((action_id, []) ∷ groups) = benchmarks_of groups
  benchmarks_of ((action_id, latest ∷ others) ∷ groups) =
      let sample_count = length (latest ∷ others) in
      let success_count = count_succeeded (latest ∷ others) in
      record {
        action_id = action_id;
        action_label = latest.action_label;
        sample_count = sample_count;
        success_count = success_count;
        failure_count = sample_count - success_count;
        success_rate = rate success_count sample_count;
        latest_seconds = latest.duration_seconds;
        latest_finished_at = latest.finished_at;
      }
      ∷ benchmarks_of groups

  unfoldable pub get_runtime_benchmarks : String → ℕ → List RunRecord → List ActionRuntimeBenchmark
  unfolding list_runs finished_runs group_by_action benchmarks_of
  get_runtime_benchmarks crawler_name limit rows =
      benchmarks_of (group_by_action [] (finished_runs (list_runs (some crawler_name) limit rows)))
