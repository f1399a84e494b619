-- ===== src/Fms/Backfill.antt =====
-- `backwards_update` of crawler/entsoe_fms.py with its helpers. A month or a year is its number, which
-- `read` gives for a text and `strftime` renders. Exceptions are `false`, with what was written before.
pub mod Laws
use open_energy_data_server.Common.{
  ℕ, zero, suc, ◌+◌, ◌-◌, String, Bool, true, false, not, Option, none, some, List, [], ◌∷◌, ◌++◌,
  ◌&&◌, ◌||◌, str_eq, ltb, leb, get_elem?, if◌then◌else◌,
}
use open_energy_data_server.Common.Dict
use open_energy_data_server.Common.Dict.{Dict}
use open_energy_data_server.Common.Sets.{contains}
use open_energy_data_server.Common.Text.{◌<>◌}
use open_energy_data_server.Fms.Items.{
  active_data_items, target_files_dirs, data_item_of_dir, single_file_data_items,
  annual_file_data_items, update_time_columns, get_table_name,
}
use open_energy_data_server.Fms.Frame.{
  Columns, Frame, empty_frame, not_later_than, is_empty_list, deduplicate_on_unique_keys,
}
use open_energy_data_server.Fms.Table.{Schema, get_table_state, insert_dataframe, flush_to_database}
use open_energy_data_server.Fms.Files.{
  Meta, name_of, Downloaded, chunks, http_error, other_error, Service,
}
use open_energy_data_server.Fms.Download.{write, create_table}

-- the loop of `_build_backfill_periods`, which ends after as many rounds as there are periods
unfoldable pub period_loop : ℕ → (ℕ → String) → ℕ → ℕ → List String
period_loop zero strftime dt end_dt = []
period_loop (suc fuel) strftime dt end_dt =
    let rest = period_loop fuel strftime (dt + 1) end_dt in
    if leb dt end_dt then strftime dt ∷ rest else []

-- `none` for the `ValueError` of a text that is no period
unfoldable pub build_backfill_periods :
    (String → Option ℕ) → (ℕ → String) → String → String → Option (List String)
unfolding period_loop
build_backfill_periods read strftime start finish = elim (read start) [
  | none ↦ none
  | some start_dt ↦ elim (read finish) [
    | none ↦ none
    | some end_dt ↦ some (period_loop (end_dt + 2 - start_dt) strftime start_dt end_dt)
  ]
]

unfoldable pub starts_with : String → String → Bool
starts_with String.[] s = true
starts_with (String.◌∷◌ a p) String.[] = false
starts_with (String.◌∷◌ a p) (String.◌∷◌ b s) =
    str_eq (String.◌∷◌ a "") (String.◌∷◌ b "") && starts_with p s

unfoldable pub find_meta : (String → Bool) → List Meta → Option Meta
unfolding name_of
find_meta test [] = none
find_meta test (m ∷ ms) = if test (name_of m) then some m else find_meta test ms

-- Whether a column or a time has a time zone. `_normalize_timestamp_columns` gives the update
-- columns the zone UTC; `replace(tzinfo=None)` takes it from the limit.
pub data Zone : Type 0 where
  utc : Zone
  naive : Zone

unfoldable pub column_zone : String → Zone
unfolding contains
column_zone column = if contains column update_time_columns then utc else naive

abbrev pub limit_zone : Zone
limit_zone = naive

-- pandas compares a column with a time if both have a zone or neither has, and raises a `TypeError` else
unfoldable pub are_comparable : Zone → Zone → Bool
are_comparable utc utc = true
are_comparable utc naive = false
are_comparable naive utc = false
are_comparable naive naive = true

-- `df[df[column] <= last_update_time]`: none for the `TypeError`, or the `KeyError` of a column that
-- the file has not got
unfoldable pub not_later_rows :
    {Row : Type 0} → Columns Row → List String → String → ℕ → List Row → Option (List Row)
unfolding contains not_later_than column_zone are_comparable
not_later_rows c columns column limit rows =
    if contains column columns && are_comparable (column_zone column) limit_zone
    then some (not_later_than c column limit rows)
    else none

module _ {Row : Type 0} (c : Columns Row) (schema : Schema) (service : Service Row) where
  -- the last part of `_update_data_file`, for a table that is there
  unfoldable pub update_stored_table : String → Frame Row → Dict (List Row) → Dict (List Row) × Bool
  unfolding write flush_to_database not_later_rows is_empty_list
  update_stored_table table df db =
      let state = get_table_state c schema table db in
      elim state.update_time_column [
        | none ↦ (db, true)
        | some column ↦ elim state.last_update_time [
          | none ↦ (write table (flush_to_database c table empty_frame df) db, true)
          | some last ↦ elim (not_later_rows c df.columns column last df.rows) [
            | none ↦ (db, false)
            | some rows ↦ (
              if is_empty_list rows
                  then db
                  else write table
                      (flush_to_database c table empty_frame (record df { rows = rows })) db,
              true,
            )
          ]
        ]
      ]

  -- the rows of a file that was downloaded; an upsert of rows into a missing table raises
  unfoldable pub update_from_frame : String → Frame Row → Dict (List Row) → Dict (List Row) × Bool
  unfolding update_stored_table create_table write insert_dataframe deduplicate_on_unique_keys
      flush_to_database is_empty_list
  update_from_frame table df db =
      let made = create_table c schema table db in
      if str_eq table "InstalledCapacityProductionUnit"
      then (
        if Dict.has table db || is_empty_list df.rows
            then write table (flush_to_database c table empty_frame df) db
            else db,
        Dict.has table db || is_empty_list df.rows,
      )
      else if Dict.has table db
      then update_stored_table table df db
      else if not (Dict.has table made)
      then (made, false)
      else (
        write table (insert_dataframe c table (deduplicate_on_unique_keys c table df)) made,
        true,
      )

  -- The file is read as a whole, as one chunk.
  unfoldable pub update_data_file :
      String → Option String → List Meta → Dict (List Row) → Dict (List Row) × Bool
  unfolding get_table_name find_meta starts_with update_from_frame
  update_data_file data_item file_identifier metadata_entries db =
      let test : String → Bool = elim file_identifier [
        | none ↦ λ name. str_eq name (data_item <> ".csv")
        | some identifier ↦ starts_with identifier
      ] in
      elim (get_table_name data_item active_data_items) [
        | none ↦ (db, false)
        | some table ↦ elim (find_meta test metadata_entries) [
          | none ↦ (db, true)
          | some meta ↦ elim (service.download meta.file_id) [
            | chunks (df ∷ dfs) ↦ update_from_frame table df db
            | _ ↦ (db, false)
          ]
        ]
      ]

  unfoldable pub update_periods :
      String → List String → List Meta → Dict (List Row) → Dict (List Row) × Bool
  unfolding update_data_file
  update_periods data_item [] metadata_entries db = (db, true)
  update_periods data_item (period ∷ periods) metadata_entries db =
      let (db', ok) = update_data_file data_item (some period) metadata_entries db in
      let rest = update_periods data_item periods metadata_entries db' in
      if ok then rest else (db', false)

  unfoldable pub update_range :
      String → Option (List String) → Dict (List Row) → Dict (List Row) × Bool
  unfolding update_periods
  update_range data_item none db = (db, true)
  update_range data_item (some []) db = (db, true)
  update_range data_item (some (period ∷ periods)) db = elim (service.list_metadata data_item) [
    | none ↦ (db, false)
    | some metas ↦ update_periods data_item (period ∷ periods) metas db
  ]

  -- The readers and renderers are those of years, and of months.
  unfoldable pub backwards_update :
      (String → Option ℕ)
      → (ℕ → String)
      → (String → Option ℕ)
      → (ℕ → String)
      → String
      → String
      → ℕ
      → Dict (List Row)
      → Dict (List Row) × Bool
  unfolding target_files_dirs data_item_of_dir update_data_file update_range build_backfill_periods
      contains
  backwards_update read_year year_text read_month month_text start finish index db =
      elim (get_elem? (target_files_dirs active_data_items) index) [
        | none ↦ (db, true)
        | some dir_path ↦
            let data_item = data_item_of_dir dir_path in
            if contains data_item single_file_data_items
            then elim (service.list_metadata data_item) [
              | none ↦ (db, false)
              | some metas ↦ update_data_file data_item none metas db
            ]
            else if contains data_item annual_file_data_items
            then update_range data_item (build_backfill_periods read_year year_text start finish) db
            else update_range data_item (build_backfill_periods read_month month_text start finish)
                db
      ]
