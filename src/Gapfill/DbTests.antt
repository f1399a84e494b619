-- ===== src/Gapfill/DbTests.antt =====
-- The gap filler's job at a concrete database.
use open_energy_data_server.Common.{
  ℕ, ◌≡◌, refl, String, Bool, true, false, Option, none, some, List, [], ◌∷◌,
}
use open_energy_data_server.Common.Dict
use open_energy_data_server.Common.Dict.{Dict}
use open_energy_data_server.Gapfill.Tables.{
  TimeSeriesTableConfig, TrackingState, WindowInfo, GroupMetric, Row, SourceTable, Database,
}
use open_energy_data_server.Gapfill.Window.{
  at_least, at_most, later_than, is_new, is_automatic, is_changed, changed, lower, higher, min_time,
  max_time, max_update, is_tracked, window_of, get_processing_window, in_window, read_source_window,
  delete_window, replace_target_window,
}
use open_energy_data_server.Gapfill.Window.Laws.{get_processing_window_covers}
use open_energy_data_server.Gapfill.Window.Replace.{replace_target_window_replaces}
use open_energy_data_server.Gapfill.Db.{Statement, process_table}

abbrev load : TimeSeriesTableConfig
load = record {
  table_name = "load";
  time_column = "time";
  value_columns = "mw" ∷ [];
  groupby_columns = [];
  update_time_column = some "updated";
  method = "donor_refined";
}

abbrev row_at : ℕ → ℕ → Row
row_at t u = record { time = some t; update_time = some u; values = "1" }

abbrev load_rows : List Row
load_rows = row_at 10 100 ∷ row_at 20 300 ∷ row_at 30 200 ∷ []

abbrev source : Dict SourceTable
source = ("load", record { columns = "time" ∷ "mw" ∷ "updated" ∷ []; rows = load_rows }) ∷ []

abbrev tracked : TrackingState
tracked = record { last_source_timestamp = some 10; last_update_time = some 150 }

abbrev database : Database
database = record { target = []; tracking = ("load", tracked) ∷ []; metrics = [] }

abbrev never_fails : Statement → String → Bool
never_fails statement n = false

abbrev unchanged : TimeSeriesTableConfig → List Row → Option (List Row × List GroupMetric)
unchanged config rows = some (rows, [])

abbrev window : WindowInfo
window = record {
  read_start = 15;
  read_end = 30;
  changed_start = 20;
  changed_end = 30;
  max_update_time = some 300;
  changed_rows = 2;
}

get_processing_window_covers_example :
    changed true tracked none none (read_source_window 15 30 load_rows)
    ≡ changed true tracked none none load_rows
unfolding get_processing_window changed is_changed at_least at_most is_new later_than is_automatic
    window_of min_time max_time max_update lower higher is_tracked
get_processing_window_covers_example =
    get_processing_window_covers true 5 tracked none none load_rows window refl

replace_target_window_replaces_example :
    (read_source_window 15 30 (replace_target_window 15 30 (row_at 20 0 ∷ []) (some load_rows))
      ≡ row_at 20 0 ∷ [])
    × (delete_window 15 30 (replace_target_window 15 30 (row_at 20 0 ∷ []) (some load_rows))
        ≡ delete_window 15 30 load_rows)
    × (replace_target_window 15 30
          (row_at 20 0 ∷ [])
          (some (replace_target_window 15 30 (row_at 20 0 ∷ []) (some load_rows)))
        ≡ replace_target_window 15 30 (row_at 20 0 ∷ []) (some load_rows))
unfolding in_window
replace_target_window_replaces_example =
    replace_target_window_replaces 15 30 (row_at 20 0 ∷ []) load_rows (refl, tt)

abbrev processed_load : Database
processed_load = (process_table source never_fails unchanged false none none 5 load database).1
