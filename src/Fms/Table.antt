-- ===== src/Fms/Table.antt =====
-- The writes of crawler/entsoe_fms.py. A table is the list of its rows, with at most one row of a
-- key where the unique constraint of the table holds; the columns of the key hold no null. A database
-- holds the tables of the schema entsoe_fms.
pub mod Laws
pub mod Inserts
use open_energy_data_server.Common.{
  ℕ, zero, suc, String, Bool, true, false, not, Option, none, some, List, [], ◌∷◌, ◌++◌, str_eq,
  ltb, max, if◌then◌else◌,
}
use open_energy_data_server.Common.Dict
use open_energy_data_server.Common.Dict.{Dict}
use open_energy_data_server.Fms.Frame.{
  Columns, Frame, is_empty_list, has_key, deduplicate_on_unique_keys,
}

abbrev pub batch_size : ℕ
batch_size = 5000

module _ {Row : Type 0} (c : Columns Row) where
  -- `ON CONFLICT … DO UPDATE` with every column set
  unfoldable pub upsert_row : String → Row → List Row → List Row
  upsert_row table x [] = x ∷ []
  upsert_row table x (y ∷ ys) =
      let rest = upsert_row table x ys in
      if str_eq (c.key table y) (c.key table x) then x ∷ ys else y ∷ rest

  unfoldable pub upsert_rows : String → List Row → List Row → List Row
  unfolding upsert_row
  upsert_rows table [] stored = stored
  upsert_rows table (x ∷ xs) stored = upsert_rows table xs (upsert_row table x stored)

  -- `data[i : i + batch_size]`, and what is after it
  unfoldable pub take_batch : ℕ → List Row → List Row
  take_batch zero rows = []
  take_batch (suc n) [] = []
  take_batch (suc n) (x ∷ xs) = x ∷ take_batch n xs

  unfoldable pub drop_batch : ℕ → List Row → List Row
  drop_batch zero rows = rows
  drop_batch (suc n) [] = []
  drop_batch (suc n) (x ∷ xs) = drop_batch n xs

  -- The loop over the batches; there are at most as many as rows, which is the fuel.
  unfoldable pub upsert_batches : ℕ → ℕ → String → List Row → List Row → List Row
  unfolding upsert_rows take_batch drop_batch is_empty_list
  upsert_batches size zero table rows stored = stored
  upsert_batches size (suc fuel) table rows stored =
      let next =
        upsert_batches size fuel table (drop_batch size rows)
          (upsert_rows table (take_batch size rows) stored) in
      if is_empty_list rows then stored else next

  unfoldable pub count : List Row → ℕ
  count [] = 0
  count (x ∷ xs) = suc (count xs)

  unfoldable pub upsert_dataframe : String → Frame Row → List Row → List Row
  unfolding deduplicate_on_unique_keys upsert_batches count
  upsert_dataframe table df stored =
      let rows = (deduplicate_on_unique_keys c table df).rows in
      upsert_batches batch_size (count rows) table rows stored

  -- Some row of a batch has a key that the table holds.
  unfoldable pub conflicts : String → List Row → List Row → Bool
  unfolding has_key
  conflicts table [] stored = false
  conflicts table (x ∷ xs) stored =
      if has_key c table (c.key table x) stored then true else conflicts table xs stored

  -- An insert of a batch is refused as a whole where it conflicts, and then the batch is upserted.
  unfoldable pub insert_batch : String → List String → List Row → List Row → List Row
  unfolding conflicts upsert_dataframe
  insert_batch table columns batch stored =
      if conflicts table batch stored
      then upsert_dataframe table (record { columns = columns; rows = batch }) stored
      else stored ++ batch

  unfoldable pub insert_batches : ℕ → ℕ → String → List String → List Row → List Row → List Row
  unfolding insert_batch take_batch drop_batch is_empty_list
  insert_batches size zero table columns rows stored = stored
  insert_batches size (suc fuel) table columns rows stored =
      let next =
        insert_batches size fuel table columns (drop_batch size rows)
          (insert_batch table columns (take_batch size rows) stored) in
      if is_empty_list rows then stored else next

  unfoldable pub insert_dataframe : String → Frame Row → List Row → List Row
  unfolding deduplicate_on_unique_keys insert_batches count
  insert_dataframe table df stored =
      let rows = (deduplicate_on_unique_keys c table df).rows in
      insert_batches batch_size (count rows) table df.columns rows stored

  -- `_flush_to_database`: the updates, then the inserts
  unfoldable pub flush_to_database : String → Frame Row → Frame Row → List Row → List Row
  unfolding upsert_dataframe insert_dataframe
  flush_to_database table df_insert df_update stored =
      insert_dataframe table df_insert (upsert_dataframe table df_update stored)

  -- `SELECT MAX(column)`
  unfoldable pub max_stamp : String → List Row → Option ℕ
  max_stamp column [] = none
  max_stamp column (x ∷ xs) = elim (c.stamp column x) [
    | none ↦ max_stamp column xs
    | some t ↦ elim (max_stamp column xs) [ none ↦ some t | some u ↦ some (max t u) ]
  ]

pub record TableState : Type 0 where
  pub table_exists : Bool
  pub update_time_column : Option String
  pub datetime_column_name : Option String
  pub last_update_time : Option ℕ
  pub last_date_time : Option ℕ

-- the columns of the table's definition whose names have `UpdateTime` and `DateTime` in them
pub record Schema : Type 0 where
  pub defined : String → Bool
  pub update_time_column_of : String → Option String
  pub datetime_column_of : String → Option String

module _ {Row : Type 0} (c : Columns Row) (schema : Schema) where
  unfoldable pub max_of : Option String → List Row → Option ℕ
  unfolding max_stamp
  max_of none rows = none
  max_of (some column) rows = max_stamp c column rows

  unfoldable pub get_table_state : String → Dict (List Row) → TableState
  unfolding max_of
  get_table_state table db = elim (Dict.get table db) [
    | none ↦ record {
      table_exists = false;
      update_time_column = none;
      datetime_column_name = none;
      last_update_time = none;
      last_date_time = none;
    }
    | some rows ↦ record {
      table_exists = true;
      update_time_column = schema.update_time_column_of table;
      datetime_column_name = schema.datetime_column_of table;
      last_update_time = max_of (schema.update_time_column_of table) rows;
      last_date_time = max_of (schema.datetime_column_of table) rows;
    }
  ]
