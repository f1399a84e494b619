-- ===== src/Gapfill/Job.antt =====
-- `run_gapfill_job` of scripts/lib/gapfiller/db.py. The log of runs is the returned summary; a run
-- whose metrics cannot be written after an error raises (`none`).
pub mod Counts
use open_energy_data_server.Common.{
  ℕ, ◌+◌, String, Bool, true, false, Option, none, some, List, [], ◌∷◌, length, ◌==◌, if◌then◌else◌,
}
use open_energy_data_server.Common.Dict.{Dict}
use open_energy_data_server.Gapfill.Tables.{
  TimeSeriesTableConfig, GapfillJobConfig, GroupMetric, Row, SourceTable, Database,
}
use open_energy_data_server.Gapfill.Db.{
  Statement, write_metrics, TableResult, skipped, processed, skipped_metric, with_metrics,
  process_table,
}

pub record Totals : Type 0 where
  pub tables_processed : ℕ
  pub tables_skipped : ℕ
  pub tables_failed : ℕ
  pub groups_processed : ℕ
  pub rows_read : ℕ
  pub rows_written : ℕ
  pub missing_before : ℕ
  pub missing_after : ℕ
  pub values_filled : ℕ

-- the totals after a table: an exception, a skipped or a processed table
unfoldable pub add_result : Option TableResult → Totals → Totals
add_result none t = record {
  tables_processed = t.tables_processed;
  tables_skipped = t.tables_skipped;
  tables_failed = t.tables_failed + 1;
  groups_processed = t.groups_processed;
  rows_read = t.rows_read;
  rows_written = t.rows_written;
  missing_before = t.missing_before;
  missing_after = t.missing_after;
  values_filled = t.values_filled;
}
add_result (some skipped) t = record {
  tables_processed = t.tables_processed;
  tables_skipped = t.tables_skipped + 1;
  tables_failed = t.tables_failed;
  groups_processed = t.groups_processed;
  rows_read = t.rows_read;
  rows_written = t.rows_written;
  missing_before = t.missing_before;
  missing_after = t.missing_after;
  values_filled = t.values_filled;
}
add_result (some (processed groups read written before after filled)) t = record {
  tables_processed = t.tables_processed + 1;
  tables_skipped = t.tables_skipped;
  tables_failed = t.tables_failed;
  groups_processed = t.groups_processed + groups;
  rows_read = t.rows_read + read;
  rows_written = t.rows_written + written;
  missing_before = t.missing_before + before;
  missing_after = t.missing_after + after;
  values_filled = t.values_filled + filled;
}

module _ (source : Dict SourceTable) (fails : Statement → String → Bool)
    (fill_table : TimeSeriesTableConfig → List Row → Option (List Row × List GroupMetric))
    (dry_run : Bool) (start end : Option ℕ) where
  -- one round of the loop over the tables: `none` where writing the metric of an error raises
  unfoldable pub run_table :
      ℕ → (String → String) → TimeSeriesTableConfig → Totals × Database → Option (Totals × Database)
  unfolding process_table add_result with_metrics skipped_metric
  run_table lookback exception config (totals, db) =
      let (result, after) =
        process_table source fails fill_table dry_run start end lookback config db in
      elim result [
        | none ↦
            if fails write_metrics config.table_name
            then none
            else some (
              add_result none totals,
              with_metrics (skipped_metric config "error" (some (exception config.table_name)) ∷ [])
                  after,
            )
        | some r ↦ some (add_result (some r) totals, after)
      ]

  unfoldable pub run_tables :
      ℕ
      → (String → String)
      → List TimeSeriesTableConfig
      → Totals × Database
      → Option (Totals × Database)
  unfolding run_table
  run_tables lookback exception [] state = some state
  run_tables lookback exception (config ∷ tables) state =
      elim (run_table lookback exception config state) [
        | none ↦ none
        | some next ↦ run_tables lookback exception tables next
      ]

abbrev pub no_totals : Totals
no_totals = record {
  tables_processed = 0;
  tables_skipped = 0;
  tables_failed = 0;
  groups_processed = 0;
  rows_read = 0;
  rows_written = 0;
  missing_before = 0;
  missing_after = 0;
  values_filled = 0;
}

unfoldable pub run_status : Bool → Totals → String
run_status fail_on_table_error totals =
    if totals.tables_failed == 0
    then "success"
    else if fail_on_table_error
    then "failed"
    else "partial"

-- the summary of a run: its status and its totals
pub record GapfillRunSummary : Type 0 where
  pub status : String
  pub totals : Totals

unfoldable pub disabled_summary : GapfillJobConfig → GapfillRunSummary
disabled_summary job = record {
  status = "skipped";
  totals = record {
    tables_processed = 0;
    tables_skipped = length job.tables;
    tables_failed = 0;
    groups_processed = 0;
    rows_read = 0;
    rows_written = 0;
    missing_before = 0;
    missing_after = 0;
    values_filled = 0;
  };
}

module _ (source : Dict SourceTable) (fails : Statement → String → Bool)
    (fill_table : TimeSeriesTableConfig → List Row → Option (List Row × List GroupMetric))
    (exception : String → String) where
  unfoldable pub run_gapfill_job :
      GapfillJobConfig
      → Bool
      → Option ℕ
      → Option ℕ
      → Database
      → Option (GapfillRunSummary × Database)
  unfolding run_tables run_status disabled_summary
  run_gapfill_job job dry_run start end db =
      if job.enabled
      then elim (run_tables source fails fill_table dry_run start end job.lookback exception
          job.tables (no_totals, db)) [
            | none ↦ none
            | some done ↦ some (
              record { status = run_status job.fail_on_table_error done.0; totals = done.0 },
              done.1,
            )
          ]
      else some (disabled_summary job, db)
