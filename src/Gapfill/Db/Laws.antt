-- ===== src/Gapfill/Db/Laws.antt =====
-- What processing a table changes in the database, however its statements turn out.
use open_energy_data_server.Common.{
  ℕ, ◌≡◌, refl, String, Bool, true, false, Option, none, some, List, [], ◌∷◌, arith, if◌then◌else◌,
  inl, inr, Bool-cases, str_eq,
}
use open_energy_data_server.Common.Dict
use open_energy_data_server.Common.Dict.{Dict, get-put}
use open_energy_data_server.Gapfill.Tables.{
  TimeSeriesTableConfig, WindowInfo, GroupMetric, Row, SourceTable, Database,
}
use open_energy_data_server.Gapfill.Window.{
  is_automatic, has_update_column, get_processing_window, read_source_window,
}
use open_energy_data_server.Gapfill.Db.{
  Statement, Outcome, with_metrics, with_window, update_tracking_state, guarded, skip, finish,
  store, fill_rows, process_window, process_tracked, process_source, process_table,
  has_required_columns, tracking_of,
}

-- the window of a source table that a run is to fill
abbrev pub window_to_fill :
    Option ℕ → Option ℕ → ℕ → TimeSeriesTableConfig → Database → SourceTable → Option WindowInfo
window_to_fill start end lookback config db table =
    get_processing_window (has_update_column config.update_time_column table.columns) lookback
      (tracking_of (Dict.get config.table_name db.tracking)) start end table.rows

-- The window is the one to fill, and the rows are what filling its source rows gives.
abbrev pub IsFilled :
    Dict SourceTable
    → (TimeSeriesTableConfig → List Row → Option (List Row × List GroupMetric))
    → Option ℕ
    → Option ℕ
    → ℕ
    → TimeSeriesTableConfig
    → Database
    → WindowInfo
    → List Row
    → Type 0
IsFilled source fill_table start end lookback config db w dataframe =
    (table : SourceTable) × (metrics : List GroupMetric) × (Dict.get config.table_name source
      ≡ some table)
    × (window_to_fill start end lookback config db table ≡ some w)
    × (fill_table config (read_source_window w.read_start w.read_end table.rows)
        ≡ some (dataframe, metrics))

if_keeps :
    (P : Database → Type 0) (b : Bool) (x y : Outcome)
    → (b ≡ true → P x.1)
    → (b ≡ false → P y.1)
    → P (if b then x else y).1
if_keeps P true x y h k = h refl
if_keeps P false x y h k = k refl

module _ (source : Dict SourceTable) (fails : Statement → String → Bool)
    (fill_table : TimeSeriesTableConfig → List Row → Option (List Row × List GroupMetric))
    (dry_run : Bool) (start end : Option ℕ) (P : Database → Type 0)
    (metrics_too : (ms : List GroupMetric) (db : Database) → P db → P (with_metrics ms db)) where
  guarded-keeps :
      (statement : Statement) (n : String) (db : Database) (rest : Outcome)
      → P db
      → P rest.1
      → P (guarded source fails fill_table dry_run start end statement n db rest).1
  unfolding guarded
  guarded-keeps statement n db rest h k = elim (Bool-cases (fails statement n)) [
    | inl e ↦ rw e h
    | inr e ↦ rw e k
  ]

  skip-keeps :
      (config : TimeSeriesTableConfig) (status : String) (db : Database)
      → P db
      → P (skip source fails fill_table dry_run start end config status db).1
  unfolding skip
  skip-keeps config status db h = guarded-keeps _ _ db _ h (metrics_too _ db h)

  finish-keeps :
      (config : TimeSeriesTableConfig) (rows dataframe : List Row) (metrics : List GroupMetric)
      (db : Database)
      → P db
      → P (finish source fails fill_table dry_run start end config rows dataframe metrics db).1
  unfolding finish
  finish-keeps config rows dataframe metrics db h =
      guarded-keeps _ _ db _ h (metrics_too metrics db h)

  module _ (db : Database) (h : P db) (config : TimeSeriesTableConfig) (lookback : ℕ)
      (written : dry_run ≡ false
        → (w : WindowInfo) (dataframe : List Row)
        → IsFilled source fill_table start end lookback config db w dataframe
        → P (with_window config.table_name w dataframe db))
      (tracked : dry_run ≡ false
        → is_automatic start end ≡ true
        → (w : WindowInfo) (dataframe : List Row)
        → IsFilled source fill_table start end lookback config db w dataframe
        → P (
            update_tracking_state config.table_name w
              (with_window config.table_name w dataframe db))) where
    store-keeps :
        (w : WindowInfo) (rows dataframe : List Row) (metrics : List GroupMetric)
        → IsFilled source fill_table start end lookback config db w dataframe
        → P (store source fails fill_table dry_run start end config w rows dataframe metrics db).1
    unfolding store
    store-keeps w rows dataframe metrics f =
        if_keeps P dry_run _ _ (λ dry. finish-keeps config rows dataframe metrics db h)
          (λ wet. guarded-keeps _ _ db _ h (
            if_keeps P (is_automatic start end) _ _
              (λ automatic. guarded-keeps _ _ _ _ (written wet w dataframe f) (
                finish-keeps config rows dataframe metrics _ (tracked wet automatic w dataframe f)))
              (λ manual. finish-keeps config rows dataframe metrics _ (written wet w dataframe f))))

    fill_rows-keeps :
        (w : WindowInfo) (rows : List Row)
        → ((dataframe : List Row) (metrics : List GroupMetric)
            → fill_table config rows ≡ some (dataframe, metrics)
            → IsFilled source fill_table start end lookback config db w dataframe)
        → P (fill_rows source fails fill_table dry_run start end config w rows db).1
    unfolding fill_rows
    fill_rows-keeps w [] f = skip-keeps config "skipped_empty_window" db h
    fill_rows-keeps w (row ∷ rows) f = by_filled (fill_table config (row ∷ rows)) refl
      where
        by_filled :
            (o : Option (List Row × List GroupMetric))
            → fill_table config (row ∷ rows) ≡ o
            → P
                (elim o as (λ _. Outcome) [
                  | none ↦ (none, db)
                  | some filled ↦
                      store source fails fill_table dry_run start end config w
                        (row ∷ rows)
                        filled.0
                        filled.1
                        db
                ]).1
        by_filled none e = h
        by_filled (some filled) e =
            store-keeps w (row ∷ rows) filled.0 filled.1 (f filled.0 filled.1 e)

    process_window-keeps :
        (table : SourceTable) (o : Option WindowInfo)
        → Dict.get config.table_name source ≡ some table
        → window_to_fill start end lookback config db table ≡ o
        → P (process_window source fails fill_table dry_run start end config table o db).1
    unfolding process_window
    process_window-keeps table none there e = skip-keeps config "skipped_no_changes" db h
    process_window-keeps table (some w) there e =
        guarded-keeps _ _ db _ h
          (fill_rows-keeps w _ (λ dataframe metrics f. (table, metrics, there, e, f)))

    process_tracked-keeps :
        (table : SourceTable)
        → Dict.get config.table_name source ≡ some table
        → P (process_tracked source fails fill_table dry_run start end lookback config table db).1
    unfolding process_tracked
    process_tracked-keeps table there =
        guarded-keeps _ _ db _ h
          (guarded-keeps _ _ db _ h (process_window-keeps table _ there refl))

    process_source-keeps :
        (table : SourceTable)
        → Dict.get config.table_name source ≡ some table
        → P (process_source source fails fill_table dry_run start end lookback config table db).1
    unfolding process_source
    process_source-keeps table there = guarded-keeps _ _ db _ h (
        if_keeps P (has_required_columns config table.columns)
          (process_tracked source fails fill_table dry_run start end lookback config table db)
          (none, db) (λ complete. process_tracked-keeps table there) (λ incomplete. h))

    -- What the start of a table's processing has, and the metrics, the window and the tracking state
    -- of the table keep, the end of it has.
    pub process_table-keeps :
        P (process_table source fails fill_table dry_run start end lookback config db).1
    unfolding process_table
    process_table-keeps =
        guarded-keeps _ _ db _ h (by_table (Dict.get config.table_name source) refl)
      where
        by_table :
            (o : Option SourceTable)
            → Dict.get config.table_name source ≡ o
            → P
                (elim o as (λ _. Outcome) [
                  | none ↦
                      skip source fails fill_table dry_run start end config "skipped_source_missing"
                        db
                  | some table ↦
                      process_source source fails fill_table dry_run start end lookback config table
                        db
                ]).1
        by_table none e = skip-keeps config "skipped_source_missing" db h
        by_table (some table) e = process_source-keeps table e

-- The state after a table's processing: nothing but metrics changed, or the window was replaced, or it
-- was replaced and the tracking state moved to its end.
module _ (source : Dict SourceTable) (fails : Statement → String → Bool)
    (fill_table : TimeSeriesTableConfig → List Row → Option (List Row × List GroupMetric))
    (dry_run : Bool) (start end : Option ℕ) (lookback : ℕ) (config : TimeSeriesTableConfig)
    (db : Database) where
  abbrev after : Database
  after = (process_table source fails fill_table dry_run start end lookback config db).1

  -- A dry run changes no target table and no tracking state.
  pub dry_run_changes_nothing :
      dry_run ≡ true → (after.target ≡ db.target) × (after.tracking ≡ db.tracking)
  unfolding with_metrics
  dry_run_changes_nothing dry =
      process_table-keeps source fails fill_table dry_run start end
        (λ d. (d.target ≡ db.target) × (d.tracking ≡ db.tracking)) (λ ms d h. h) db (refl, refl)
        config lookback (λ wet. absurd (ground arith)) (λ wet. absurd (ground arith))

  -- A run with manual bounds moves no tracking state.
  pub manual_run_keeps_tracking : is_automatic start end ≡ false → after.tracking ≡ db.tracking
  unfolding with_metrics with_window
  manual_run_keeps_tracking manual =
      process_table-keeps source fails fill_table dry_run start end (λ d. d.tracking ≡ db.tracking)
        (λ ms d h. h) db refl config lookback (λ wet w dataframe f. refl)
        (λ wet automatic. absurd (ground arith))

  -- Processing a table changes the target and the tracking state of no other table.
  pub process_table_elsewhere :
      (n : String)
      → str_eq config.table_name n ≡ false
      → (Dict.get n after.target ≡ Dict.get n db.target)
        × (Dict.get n after.tracking ≡ Dict.get n db.tracking)
  unfolding with_metrics with_window update_tracking_state
  process_table_elsewhere n other =
      process_table-keeps source fails fill_table dry_run start end
        (λ d.
          (Dict.get n d.target ≡ Dict.get n db.target)
          × (Dict.get n d.tracking ≡ Dict.get n db.tracking))
        (λ ms d h. h) db (refl, refl) config lookback
        (λ wet w dataframe f. (rw (get-put config.table_name n _ db.target, other) refl, refl))
        (λ wet automatic w dataframe f. (
          rw (get-put config.table_name n _ db.target, other) refl,
          rw (get-put config.table_name n _ db.tracking, other) refl,
        ))
