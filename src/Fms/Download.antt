-- ===== src/Fms/Download.antt =====
-- `_download_files_and_write_into_database` and `run` of crawler/entsoe_fms.py. The file service is
-- outside: what it lists for a data item, and what a download gives, are arguments, with the chunks
-- of a file as `_normalize_timestamp_columns` leaves them, up to the first that cannot be read. The
-- times are in UTC, and a month is its number, counted from January of the year 0.
use Prim.Native.String.{compare}
use Prim.Native.Nat.{Ordering}
pub mod Laws
use open_energy_data_server.Common.{
  ℕ, ◌+◌, ◌-◌, String, Bool, true, false, not, Option, none, some, List, [], ◌∷◌, ◌++◌, ◌&&◌, ◌||◌,
  str_eq, ltb, leb, if◌then◌else◌,
}
use open_energy_data_server.Common.Dict
use open_energy_data_server.Common.Dict.{Dict}
use open_energy_data_server.Yaml.{Value, int}
use open_energy_data_server.Fms.Items.{
  get_table_name, active_data_items, should_skip_date_filter, get_target_data_items,
}
use open_energy_data_server.Fms.Frame.{
  Columns, Frame, empty_frame, is_empty_list, keep_first, deduplicate_on_unique_keys,
  split_incremental_chunk, split_package_refresh_chunk,
}
use open_energy_data_server.Fms.Table.{
  Schema, TableState, get_table_state, insert_dataframe, flush_to_database,
}
use open_energy_data_server.Fms.Files.{
  Meta, Downloaded, Service, ends_with, name_of, should_process_metadata_entry, insert_by_name,
  sorted_metas, calculate_package_window_start, get_run_start_time, chunks, http_error, other_error,
}

-- A write makes the table where it is missing and there is a row to write.
unfoldable pub write {ℓ} :
    {Row : Type ℓ} → String → (List Row → List Row) → Dict (List Row) → Dict (List Row)
write table change db = elim (Dict.get table db) [
  | some stored ↦ Dict.put table (change stored) db
  | none ↦ elim (change []) [ [] ↦ db | x ∷ xs ↦ Dict.put table (x ∷ xs) db ]
]

-- the variables of the loop over the files of a data item
pub record Progress (Row : Type 0) : Type 0 where
  pub db : Dict (List Row)
  pub create : Bool
  pub do_not_create_again : Bool

module _ {Row : Type 0} (c : Columns Row) (schema : Schema) where
  unfoldable pub flush_chunk : String → Frame Row × Frame Row → Dict (List Row) → Dict (List Row)
  unfolding is_empty_list write flush_to_database
  flush_chunk table (df_insert_chunk, df_update_chunk) db =
      if is_empty_list df_insert_chunk.rows && is_empty_list df_update_chunk.rows
      then db
      else write table (flush_to_database c table df_insert_chunk df_update_chunk) db

  -- the branches for one chunk
  unfoldable pub process_chunk :
      Bool → Bool → TableState → String → Frame Row → Dict (List Row) → Dict (List Row)
  unfolding write insert_dataframe deduplicate_on_unique_keys flush_chunk keep_first
      split_package_refresh_chunk split_incremental_chunk
  process_chunk create full_package_upsert state table df db =
      if create
      then write table (insert_dataframe c table (deduplicate_on_unique_keys c table df)) db
      else if full_package_upsert
      then flush_chunk table (split_package_refresh_chunk c table df) db
      else elim state.last_update_time [
        | some last_update_time ↦
            flush_chunk table
              (split_incremental_chunk c table df state.update_time_column (some last_update_time)
                state.datetime_column_name state.last_date_time)
              db
        | none ↦
            flush_chunk table (empty_frame, record df { rows = keep_first c table [] df.rows }) db
      ]

  unfoldable pub process_chunks :
      Bool → Bool → TableState → String → List (Frame Row) → Dict (List Row) → Dict (List Row)
  unfolding process_chunk
  process_chunks create full_package_upsert state table [] db = db
  process_chunks create full_package_upsert state table (df ∷ dfs) db =
      process_chunks create full_package_upsert state table dfs
        (process_chunk create full_package_upsert state table df db)

  -- `_create_table_with_unique_constraint`, which logs an error where it knows no definition
  unfoldable pub create_table : String → Dict (List Row) → Dict (List Row)
  create_table table db =
      if Dict.has table db then db else if schema.defined table then Dict.put table [] db else db

  -- the `try` block for one file
  unfoldable pub process_file : Bool → String → List (Frame Row) → Progress Row → Progress Row
  unfolding create_table process_chunks
  process_file full_package_upsert table dfs p =
      let found = get_table_state c schema table p.db in
      let made = if p.do_not_create_again then p.db else create_table table p.db in
      if found.table_exists
      then record p { db = process_chunks p.create full_package_upsert found table dfs p.db }
      else record {
        db =
            process_chunks true full_package_upsert (get_table_state c schema table made) table dfs
              made;
        create = true;
        do_not_create_again = true;
      }

  module _ (service : Service Row) where
    -- `continue` for a file whose period begins before the start; one with no period is read
    unfoldable pub is_before_start : String → ℕ → String → Bool
    unfolding should_skip_date_filter
    is_before_start data_item effective_start_time name =
        if should_skip_date_filter data_item then false else elim (service.period_of name) [
          | none ↦ false
          | some month ↦ ltb (service.month_start month) effective_start_time
        ]

    -- The loop over the files of one data item; `false` where an exception leaves it.
    unfoldable pub process_files :
        Bool → String → String → ℕ → List Meta → Progress Row → Progress Row × Bool
    unfolding is_before_start process_file name_of
    process_files full data_item table start [] p = (p, true)
    process_files full data_item table start (meta ∷ metas) p =
        let skipped = process_files full data_item table start metas p in
        if is_before_start data_item start (name_of meta)
        then skipped
        else elim (service.download meta.file_id) [
          | http_error ↦ skipped
          | other_error ↦ (p, false)
          | chunks dfs ↦
              process_files full data_item table start metas (process_file full table dfs p)
        ]

    -- `effective_start_time`
    unfoldable pub effective_start : Bool → TableState → ℕ → ℕ → ℕ → ℕ
    effective_start full state start_time end_time update_interval =
        if full then start_time else elim state.last_update_time [
          | none ↦ start_time
          | some _ ↦ if state.table_exists then end_time - update_interval else start_time
        ]

    unfoldable pub process_item :
        Bool → ℕ → ℕ → ℕ → String → String → Dict (List Row) → Dict (List Row) × Bool
    unfolding sorted_metas get_table_state effective_start process_files
    process_item full start_time end_time update_interval data_item table db =
        elim (service.list_metadata data_item) [
          | none ↦ (db, true)
          | some metas ↦
              let start =
                effective_start full (get_table_state c schema table db) start_time end_time
                  update_interval in
              let (p, ok) =
                process_files full data_item table start (sorted_metas service metas)
                  (record { db = db; create = false; do_not_create_again = false }) in
              (p.db, ok)
        ]

    unfoldable pub process_items :
        Bool → ℕ → ℕ → ℕ → List String → Dict (List Row) → Dict (List Row) × Bool
    unfolding process_item get_table_name
    process_items full start_time end_time update_interval [] db = (db, true)
    process_items full start_time end_time update_interval (data_item ∷ items) db =
        elim (get_table_name data_item active_data_items) [
          | none ↦ (db, false)
          | some table ↦
              let (db', ok) =
                process_item full start_time end_time update_interval data_item table db in
              let rest = process_items full start_time end_time update_interval items db' in
              if ok then rest else (db', false)
        ]

    -- after `_authenticate`, whose failure is an exception before any write
    unfoldable pub download_files_and_write_into_database :
        Bool → List String → ℕ → ℕ → ℕ → Dict (List Row) → Dict (List Row) × Bool
    unfolding get_target_data_items process_items
    download_files_and_write_into_database full requested start_time end_time update_interval db =
        process_items full start_time end_time update_interval (get_target_data_items requested) db
