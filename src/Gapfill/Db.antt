-- ===== src/Gapfill/Db.antt =====
-- `process_table` of scripts/lib/gapfiller/db.py. The source schema, which statement raises for which
-- table, and `fill_table` (`none` where it raises) are arguments.
pub mod Laws
use open_energy_data_server.Common.{
  ℕ, ◌+◌, String, Bool, true, false, not, ◌&&◌, ◌||◌, Option, none, some, List, [], ◌∷◌, ◌++◌,
  length, ◌==◌, if◌then◌else◌,
}
use open_energy_data_server.Common.Text.{◌<>◌}
use open_energy_data_server.Common.Sets.{contains, add}
use open_energy_data_server.Common.Dict
use open_energy_data_server.Common.Dict.{Dict}
use open_energy_data_server.Gapfill.Tables.{
  TimeSeriesTableConfig, GapfillJobConfig, TrackingState, WindowInfo, GroupMetric, Row, SourceTable,
  Database,
}
use open_energy_data_server.Gapfill.Window.{
  has_update_column, is_automatic, get_processing_window, read_source_window, replace_target_window,
}

-- The statements of `process_table` that may raise.
pub data Statement : Type 0 where
  table_exists : Statement
  get_table_columns : Statement
  get_tracking_state : Statement
  select_window : Statement
  read_window : Statement
  replace_window : Statement
  update_tracking : Statement
  write_metrics : Statement

pub data TableResult : Type 0 where
  skipped : TableResult
  processed : ℕ → ℕ → ℕ → ℕ → ℕ → ℕ → TableResult

-- `",".join(columns)`
unfoldable pub joined : List String → String
joined [] = ""
joined (column ∷ []) = column
joined (column ∷ (next ∷ columns)) = column <> "," <> joined (next ∷ columns)

unfoldable pub skipped_metric : TimeSeriesTableConfig → String → Option String → GroupMetric
unfolding joined
skipped_metric config status error_message = record {
  table_name = config.table_name;
  value_column = joined config.value_columns;
  group_key = "__table__";
  method = config.method;
  source_rows = 0;
  output_rows = 0;
  expected_rows = 0;
  created_gap_rows = 0;
  missing_before = 0;
  missing_after = 0;
  filled_values = 0;
  start_time = none;
  end_time = none;
  status = status;
  error_message = error_message;
}

-- whether every column of the configuration is one of the table's
unfoldable pub all_in : List String → List String → Bool
unfolding contains
all_in [] source_columns = true
all_in (column ∷ columns) source_columns =
    contains column source_columns && all_in columns source_columns

unfoldable pub has_required_columns : TimeSeriesTableConfig → List String → Bool
unfolding all_in
has_required_columns config source_columns =
    all_in (config.time_column ∷ config.value_columns ++ config.groupby_columns) source_columns

unfoldable pub tracking_of : Option TrackingState → TrackingState
tracking_of none = record { last_source_timestamp = none; last_update_time = none }
tracking_of (some tracking) = tracking

unfoldable pub group_keys : List GroupMetric → List String
unfolding add
group_keys [] = []
group_keys (metric ∷ metrics) = add metric.group_key (group_keys metrics)

unfoldable pub sum_of : (GroupMetric → ℕ) → List GroupMetric → ℕ
sum_of f [] = 0
sum_of f (metric ∷ metrics) = f metric + sum_of f metrics

unfoldable pub with_metrics : List GroupMetric → Database → Database
with_metrics metrics db = record {
  target = db.target;
  tracking = db.tracking;
  metrics = db.metrics ++ metrics;
}

unfoldable pub with_window : String → WindowInfo → List Row → Database → Database
unfolding replace_target_window
with_window table_name window dataframe db = record {
  target =
      Dict.put table_name
        (replace_target_window window.read_start window.read_end dataframe
          (Dict.get table_name db.target))
        db.target;
  tracking = db.tracking;
  metrics = db.metrics;
}

unfoldable pub update_tracking_state : String → WindowInfo → Database → Database
update_tracking_state table_name window db = record {
  target = db.target;
  tracking =
      Dict.put table_name
        (record {
          last_source_timestamp = some window.changed_end;
          last_update_time = window.max_update_time;
        })
        db.tracking;
  metrics = db.metrics;
}

-- What a part of `process_table` leaves: none for an exception.
abbrev pub Outcome : Type 0
Outcome = Option TableResult × Database

module _ (source : Dict SourceTable) (fails : Statement → String → Bool)
    (fill_table : TimeSeriesTableConfig → List Row → Option (List Row × List GroupMetric))
    (dry_run : Bool) (start end : Option ℕ) where
  -- a statement, and what follows it unless it raises
  unfoldable pub guarded : Statement → String → Database → Outcome → Outcome
  guarded statement table_name db rest = if fails statement table_name then (none, db) else rest

  -- `write_metrics(…)` of a table that is skipped, and the return
  unfoldable pub skip : TimeSeriesTableConfig → String → Database → Outcome
  unfolding guarded skipped_metric with_metrics
  skip config status db =
      guarded write_metrics config.table_name db
        (some skipped, with_metrics (skipped_metric config status none ∷ []) db)

  -- the end of `process_table`: the metrics and the result
  unfoldable pub finish :
      TimeSeriesTableConfig → List Row → List Row → List GroupMetric → Database → Outcome
  unfolding guarded with_metrics group_keys sum_of
  finish config rows dataframe metrics db = guarded write_metrics config.table_name db (
    some (
        processed (length (group_keys metrics)) (length rows)
          (if dry_run then 0 else length dataframe) (sum_of (λ m. m.missing_before) metrics)
          (sum_of (λ m. m.missing_after) metrics) (sum_of (λ m. m.filled_values) metrics)),
    with_metrics metrics db,
  )

  -- `if not dry_run: …`
  unfoldable pub store :
      TimeSeriesTableConfig
      → WindowInfo
      → List Row
      → List Row
      → List GroupMetric
      → Database
      → Outcome
  unfolding guarded with_window update_tracking_state finish is_automatic
  store config window rows dataframe metrics db =
      let written = with_window config.table_name window dataframe db in
      if dry_run
      then finish config rows dataframe metrics db
      else guarded replace_window config.table_name db (
          if is_automatic start end
          then guarded update_tracking config.table_name written (
              finish config rows dataframe metrics
                (update_tracking_state config.table_name window written))
          else finish config rows dataframe metrics written)

  -- from the rows of the window on
  unfoldable pub fill_rows : TimeSeriesTableConfig → WindowInfo → List Row → Database → Outcome
  unfolding skip store
  fill_rows config window [] db = skip config "skipped_empty_window" db
  fill_rows config window (row ∷ rows) db = elim (fill_table config (row ∷ rows)) [
    | none ↦ (none, db)
    | some filled ↦ store config window (row ∷ rows) filled.0 filled.1 db
  ]

  unfoldable pub process_window :
      TimeSeriesTableConfig → SourceTable → Option WindowInfo → Database → Outcome
  unfolding skip guarded fill_rows read_source_window
  process_window config table none db = skip config "skipped_no_changes" db
  process_window config table (some window) db =
      guarded read_window config.table_name db (
        fill_rows config window (read_source_window window.read_start window.read_end table.rows)
          db)

  -- from the tracking state on
  unfoldable pub process_tracked : ℕ → TimeSeriesTableConfig → SourceTable → Database → Outcome
  unfolding guarded process_window get_processing_window has_update_column tracking_of
  process_tracked lookback config table db = guarded get_tracking_state config.table_name db (
      guarded select_window config.table_name db (
        process_window config table
          (get_processing_window (has_update_column config.update_time_column table.columns)
            lookback (tracking_of (Dict.get config.table_name db.tracking)) start end table.rows)
          db))

  unfoldable pub process_source : ℕ → TimeSeriesTableConfig → SourceTable → Database → Outcome
  unfolding guarded process_tracked has_required_columns
  process_source lookback config table db = guarded get_table_columns config.table_name db (
      if has_required_columns config table.columns
      then process_tracked lookback config table db
      else (none, db))

  unfoldable pub process_table : ℕ → TimeSeriesTableConfig → Database → Outcome
  unfolding guarded skip process_source
  process_table lookback config db =
      guarded table_exists config.table_name db (elim (Dict.get config.table_name source) [
        | none ↦ skip config "skipped_source_missing" db
        | some table ↦ process_source lookback config table db
      ])
