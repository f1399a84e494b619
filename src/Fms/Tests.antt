-- ===== src/Fms/Tests.antt =====
-- The crawler of the file library on small files and tables.
use open_energy_data_server.Common.{
  ℕ, ◌+◌, ◌*◌, ◌/◌, ◌≤◌, String, ◌≡◌, refl, true, false, Option, none, some, List, [], ◌∷◌,
  get_elem?, arith, str_eq, ltb, leb, if◌then◌else◌,
}
use open_energy_data_server.Common.Dict
use open_energy_data_server.Common.Dict.{Dict}
use open_energy_data_server.Common.Sets.{contains}
use open_energy_data_server.Fms.Items.{
  active_data_items, target_files_dirs, data_item_of_dir, single_file_data_items,
  annual_file_data_items, should_skip_date_filter,
}
use open_energy_data_server.Fms.Frame.{Columns, Frame, split_incremental_chunk, first_in, before}
use open_energy_data_server.Fms.Frame.Splits.{
  Interleaves, Filtered, IsNew, split_incremental_chunk-Interleaves,
}
use open_energy_data_server.Fms.Frame.Newest.{newest_of}
use open_energy_data_server.Fms.Table.{
  Schema, get_table_state, insert_dataframe, upsert_dataframe, max_stamp, max_of,
}
use open_energy_data_server.Fms.Table.Laws.{row_of, over}
use open_energy_data_server.Fms.Table.Inserts.{insert_dataframe_upserts}
use open_energy_data_server.Fms.Files.{
  Service, Meta, chunks, http_error, calculate_package_window_start,
}
use open_energy_data_server.Fms.Download.{Progress, process_file, process_files}
use open_energy_data_server.Fms.Download.Laws.{stale_file_ignored, package_window}
use open_energy_data_server.Fms.Backfill.{build_backfill_periods, update_from_frame}
use open_energy_data_server.Fms.Backfill.Laws.{
  build_backfill_periods_covers, prepared_backfill_item,
}
use open_energy_data_server.Runtime.Action.{BackfillPayload}
use open_energy_data_server.Runtime.DataItems.{item_names, get_entsoe_backfill_cadence}

record Sample : Type 0 where
  area : String
  updated : Option ℕ
  dated : Option ℕ
  value : ℕ

abbrev columns : Columns Sample
columns = record {
  stamp = λ column x. if str_eq column "UpdateTime(UTC)" then x.updated else x.dated;
  key = λ table x. x.area;
}

abbrev sample : String → ℕ → ℕ → ℕ → Sample
sample area updated dated value = record {
  area = area;
  updated = some updated;
  dated = some dated;
  value = value;
}

abbrev names : List String
names = "AreaCode" ∷ "DateTime(UTC)" ∷ "UpdateTime(UTC)" ∷ []

-- the second row of AT is the newer one, though it stands first
abbrev morning : Frame Sample
morning = record {
  columns = names;
  rows = sample "AT" 9 50 2 ∷ sample "DE" 5 51 7 ∷ sample "AT" 4 50 1 ∷ [];
}

abbrev stored : List Sample
stored = sample "DE" 3 40 6 ∷ []

insert_dataframe_upserts_example :
    (row_of columns "ActualTotalLoad" "AT"
        (insert_dataframe columns "ActualTotalLoad" morning stored)
      ≡ row_of columns "ActualTotalLoad" "AT"
          (upsert_dataframe columns "ActualTotalLoad" morning stored))
    × (row_of columns "ActualTotalLoad" "AT"
          (upsert_dataframe columns "ActualTotalLoad" morning stored)
        ≡ over
            (newest_of columns "ActualTotalLoad" "AT" morning)
            (row_of columns "ActualTotalLoad" "AT" stored))
insert_dataframe_upserts_example =
    insert_dataframe_upserts columns "ActualTotalLoad" "AT" morning stored

newest_morning : newest_of columns "ActualTotalLoad" "AT" morning ≡ some (sample "AT" 9 50 2)
unfolding newest_of first_in before contains
newest_morning = refl

split_incremental_chunk-Interleaves_example :
    let (df_insert, df_update) =
      split_incremental_chunk columns "ActualTotalLoad" morning
        (some "UpdateTime(UTC)")
        (some 3)
        (some "DateTime(UTC)")
        (some 50) in
    (rows : List Sample) × Filtered
      (IsNew columns names (some "UpdateTime(UTC)") (some 3))
      morning.rows
      rows
    × Interleaves rows df_insert.rows df_update.rows
split_incremental_chunk-Interleaves_example =
    split_incremental_chunk-Interleaves columns "ActualTotalLoad" morning (some "UpdateTime(UTC)")
      (some 3) (some "DateTime(UTC)") (some 50) ((50, refl), ((51, refl), ((50, refl), tt)))

abbrev schema : Schema
schema = record {
  defined = λ table. true;
  update_time_column_of = λ table. some "UpdateTime(UTC)";
  datetime_column_of = λ table. some "DateTime(UTC)";
}

-- What a first file with an update at 9 left: the rows of the second file are newer than every
-- row that was stored before the run.
abbrev after_first : Progress Sample
after_first = record {
  db = ("ActualTotalLoad", sample "AT" 9 50 2 ∷ sample "DE" 3 40 6 ∷ []) ∷ [];
  create = false;
  do_not_create_again = false;
}

abbrev second_file : List (Frame Sample)
second_file = record { columns = names; rows = sample "FR" 7 60 8 ∷ [] } ∷ []

at_most : (t : ℕ) → some 7 ≡ some t → t ≤ 9
at_most t h = ground arith

stale_file_ignored_example :
    process_file columns schema false "ActualTotalLoad" second_file after_first ≡ after_first
unfolding get_table_state Dict.get max_of max_stamp contains
stale_file_ignored_example =
    stale_file_ignored columns schema "ActualTotalLoad" "UpdateTime(UTC)" 9 second_file after_first
      refl refl refl refl ((refl, (at_most, tt)), tt)

-- months of ten units of time
abbrev service : Service Sample
service = record {
  list_metadata = λ data_item. some [];
  download = λ file_id. http_error;
  lower = λ t. t;
  period_of = λ name. none;
  month_start = λ m. m * 10;
  month_of = λ t. t / 10;
  is_month = λ m. true;
}

tens : (a b : ℕ) → ltb (a * 10) (b * 10) ≡ ltb a b
tens a b = ground arith

-- a file of the month 218, and what it holds
abbrev monthly : Service Sample
monthly = record service { download = λ file_id. chunks second_file; period_of = λ name. some 218 }

abbrev old_file : Meta
old_file = record { name = some "2018_03_Load.csv"; file_id = "f" }

package_window_example :
    process_files columns schema monthly true "ActualTotalLoad_6.1.A" "ActualTotalLoad" 2190
      (old_file ∷ [])
      after_first
    ≡ process_files columns schema monthly true "ActualTotalLoad_6.1.A" "ActualTotalLoad" 2190 [] (
        if leb (218 + 2) 220
        then after_first
        else process_file columns schema true "ActualTotalLoad" second_file after_first)
unfolding calculate_package_window_start should_skip_date_filter contains
package_window_example =
    package_window columns schema monthly 2205 2 218 2190 true "ActualTotalLoad_6.1.A"
      "ActualTotalLoad" old_file [] second_file after_first tens (omega arith) refl refl refl refl

build_backfill_periods_covers_example :
    (periods : List String) × (build_backfill_periods
        (λ t. if str_eq t "2024" then some 2024 else some 2026)
        (λ n. "year")
        "2024"
        "2026"
      ≡ some periods)
    × ((i : ℕ) → get_elem? periods i ≡ (if leb (2024 + i) 2026 then some "year" else none))
build_backfill_periods_covers_example =
    build_backfill_periods_covers (λ t. if str_eq t "2024" then some 2024 else some 2026)
      (λ n. "year") "2024" "2026" 2024 2026 refl refl

abbrev prices : BackfillPayload
prices = record {
  data_item = "EnergyPrices_12.1.D_r3";
  start = "2024_01";
  end_value = "2024_02";
  target_files_dir_index = 8;
  cadence = "monthly";
}

prepared_backfill_item_example :
    ((dir : String) × (get_elem? (target_files_dirs active_data_items) 8 ≡ some dir)
      × (data_item_of_dir dir ≡ "EnergyPrices_12.1.D_r3"))
    × (prices.cadence ≡ (
        if contains "EnergyPrices_12.1.D_r3" single_file_data_items
        then "single"
        else if contains "EnergyPrices_12.1.D_r3" annual_file_data_items
        then "annual"
        else "monthly"))
unfolding item_names get_entsoe_backfill_cadence contains
prepared_backfill_item_example = prepared_backfill_item "entsoe_fms" prices (refl, refl)

-- a backfill of a table that is there raises, and writes nothing
backfill_raises :
    update_from_frame columns schema service "ActualTotalLoad" morning after_first.db
    ≡ (after_first.db, false)
unfolding update_from_frame get_table_state Dict.get Dict.has max_of max_stamp contains
backfill_raises = refl
