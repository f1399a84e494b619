-- ===== src/Gapfill/Job/Counts.antt =====
-- The totals and the status of a run.
use open_energy_data_server.Common.{
  ℕ, ◌+◌, ◌≡◌, ◌↔◌, refl, String, Bool, true, false, Option, none, some, List, [], ◌∷◌, arith,
  length, inl, inr, Bool-cases, Option-cases, eq_iff,
}
use open_energy_data_server.Common.Dict.{Dict}
use open_energy_data_server.Gapfill.Tables.{
  TimeSeriesTableConfig, GapfillJobConfig, GroupMetric, Row, SourceTable, Database,
}
use open_energy_data_server.Gapfill.Db.{Statement, TableResult, skipped, processed, process_table}
use open_energy_data_server.Gapfill.Job.{
  Totals, add_result, run_table, run_tables, run_status, run_gapfill_job, GapfillRunSummary,
  no_totals,
}

run_status_lem :
    (fail_on_table_error : Bool) (t : Totals)
    → (run_status fail_on_table_error t ≡ "success") ↔ (t.tables_failed ≡ 0)
unfolding run_status
run_status_lem true t = (λ e. ground (arith, eq_iff "failed" "success"), λ e. ground arith)
run_status_lem false t = (λ e. ground (arith, eq_iff "partial" "success"), λ e. ground arith)

abbrev pub counted : Totals → ℕ
counted t = t.tables_processed + t.tables_skipped + t.tables_failed

counted-add_result :
    (r : Option TableResult) (t : Totals) → counted (add_result r t) ≡ counted t + 1
unfolding add_result
counted-add_result none t = ground arith
counted-add_result (some skipped) t = ground arith
counted-add_result (some (processed a b c d e f)) t = ground arith

module _ (source : Dict SourceTable) (fails : Statement → String → Bool)
    (fill_table : TimeSeriesTableConfig → List Row → Option (List Row × List GroupMetric)) where
  module _ (dry_run : Bool) (start end : Option ℕ) where
    counted-run_table :
        (lookback : ℕ) (exception : String → String) (config : TimeSeriesTableConfig)
        (s u : Totals × Database)
        → run_table source fails fill_table dry_run start end lookback exception config s ≡ some u
        → counted u.0 ≡ counted s.0 + 1
    unfolding run_table
    counted-run_table lookback exception config s u e =
        by_result (process_table source fails fill_table dry_run start end lookback config s.1).0
          refl
      where
        by_result :
            (r : Option TableResult)
            → (process_table source fails fill_table dry_run start end lookback config s.1).0 ≡ r
            → counted u.0 ≡ counted s.0 + 1
        by_result none q = elim (Bool-cases (fails Statement.write_metrics config.table_name)) [
          | inl f ↦ absurd (ground arith)
          | inr f ↦ ground (arith, counted-add_result none s.0)
        ]
        by_result (some r) q = ground (arith, counted-add_result (some r) s.0)

    counted-run_tables :
        (lookback : ℕ) (exception : String → String) (tables : List TimeSeriesTableConfig)
        (s u : Totals × Database)
        → run_tables source fails fill_table dry_run start end lookback exception tables s ≡ some u
        → counted u.0 ≡ counted s.0 + length tables
    unfolding run_tables
    counted-run_tables lookback exception [] s u e = ground arith
    counted-run_tables lookback exception (config ∷ tables) s u e =
        elim (Option-cases
          (run_table source fails fill_table dry_run start end lookback exception config s)) [
            | inl q ↦ absurd (ground arith)
            | inr (v, q) ↦ ground (
              arith,
              counted-run_table lookback exception config s v q,
              counted-run_tables lookback exception tables v u (ground arith),
            )
          ]

  -- An enabled run that returns counts every table once, as processed, skipped or failed, and it is
  -- a success exactly if none failed.
  pub run_gapfill_job_counts :
      (exception : String → String) (job : GapfillJobConfig) (dry_run : Bool) (start end : Option ℕ)
      (db after : Database) (summary : GapfillRunSummary)
      → job.enabled ≡ true
      → run_gapfill_job source fails fill_table exception job dry_run start end db
        ≡ some (summary, after)
      → (counted summary.totals ≡ length job.tables)
        × ((summary.status ≡ "success") ↔ (summary.totals.tables_failed ≡ 0))
  unfolding run_gapfill_job run_status
  run_gapfill_job_counts exception job dry_run start end db after summary on e =
      by_tables
        (run_tables source fails fill_table dry_run start end job.lookback exception job.tables
          (no_totals, db))
        refl
    where
      by_tables :
          (o : Option (Totals × Database))
          → run_tables source fails fill_table dry_run start end job.lookback exception job.tables
              (no_totals, db)
            ≡ o
          → (counted summary.totals ≡ length job.tables)
            × ((summary.status ≡ "success") ↔ (summary.totals.tables_failed ≡ 0))
      by_tables none q = absurd (ground arith)
      by_tables (some done) q =
          let totals : summary.totals ≡ done.0 = ground arith in
          let status : summary.status ≡ run_status job.fail_on_table_error done.0 = ground arith in
          (
            rw totals (
                omega (
                  arith,
                  counted-run_tables dry_run start end job.lookback exception job.tables
                      (no_totals, db) done q,
                )),
            rw (totals, status) (run_status_lem job.fail_on_table_error done.0),
          )
