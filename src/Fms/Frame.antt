-- ===== src/Fms/Frame.antt =====
-- The work of crawler/entsoe_fms.py on a dataframe: the removal of duplicates and the splits of a
-- chunk. A row is of any type; the interface `Columns` says what its columns hold.
pub mod Newest
pub mod Splits
use open_energy_data_server.Common.{
  ℕ, String, Bool, true, false, not, Option, none, some, List, [], ◌∷◌, ◌++◌, str_eq, ltb, leb,
  if◌then◌else◌,
}
use open_energy_data_server.Common.Sets.{contains}
use open_energy_data_server.Fms.Items.{update_time_columns, full_upsert_tables}

-- The time of a row in a column, which is `none` where it is not a time, and the values in the
-- columns `UNIQUE_KEY_COLUMNS` of a table, as one text.
pub record Columns (Row : Type 0) : Type 0 where
  pub stamp : String → Row → Option ℕ
  pub key : String → Row → String

pub record Frame (Row : Type 0) : Type 0 where
  pub columns : List String
  pub rows : List Row

unfoldable pub first_in : List String → List String → Option String
unfolding contains
first_in columns [] = none
first_in columns (name ∷ names) =
    if contains name columns then some name else first_in columns names

-- the order of times, in which one that is missing is last
unfoldable pub before : Option ℕ → Option ℕ → Bool
before none b = false
before (some a) none = true
before (some a) (some b) = ltb a b

module _ {Row : Type 0} where
  abbrev pub empty_frame : Frame Row
  empty_frame = record { columns = []; rows = [] }

  unfoldable pub is_empty_list : List Row → Bool
  is_empty_list [] = true
  is_empty_list (x ∷ xs) = false

  module _ (c : Columns Row) where
    -- one row into rows in order, before those it is not later than
    unfoldable pub insert_stable : String → Row → List Row → List Row
    insert_stable column x [] = x ∷ []
    insert_stable column x (y ∷ ys) =
        let rest = insert_stable column x ys in
        if before (c.stamp column y) (c.stamp column x) then y ∷ rest else x ∷ y ∷ ys

    -- `df.sort_values(column, kind="stable")`
    unfoldable pub sort_values : String → List Row → List Row
    unfolding insert_stable
    sort_values column [] = []
    sort_values column (x ∷ xs) = insert_stable column x (sort_values column xs)

    unfoldable pub has_key : String → String → List Row → Bool
    has_key table k [] = false
    has_key table k (x ∷ xs) = if str_eq (c.key table x) k then true else has_key table k xs

    -- `drop_duplicates(…, keep="last")`
    unfoldable pub keep_last : String → List Row → List Row
    unfolding has_key
    keep_last table [] = []
    keep_last table (x ∷ xs) =
        let rest = keep_last table xs in if has_key table (c.key table x) xs then rest else x ∷ rest

    -- `drop_duplicates(…, keep="first")`, after the keys that were seen
    unfoldable pub keep_first : String → List String → List Row → List Row
    unfolding contains
    keep_first table seen [] = []
    keep_first table seen (x ∷ xs) =
        let rest = keep_first table seen xs in
        let next = keep_first table (c.key table x ∷ seen) xs in
        if contains (c.key table x) seen then rest else x ∷ next

    unfoldable pub sort_by_update : Option String → List Row → List Row
    unfolding sort_values
    sort_by_update none rows = rows
    sort_by_update (some column) rows = sort_values column rows

    unfoldable pub deduplicate_on_unique_keys : String → Frame Row → Frame Row
    unfolding first_in sort_by_update keep_last
    deduplicate_on_unique_keys table df = record df {
      rows = keep_last table (sort_by_update (first_in df.columns update_time_columns) df.rows);
    }

    -- `df[df[column] > limit]`: a missing time is in neither part
    unfoldable pub later_than : String → ℕ → List Row → List Row
    later_than column limit [] = []
    later_than column limit (x ∷ xs) =
        let rest = later_than column limit xs in
        elim (c.stamp column x) [ none ↦ rest | some t ↦ if ltb limit t then x ∷ rest else rest ]

    -- `df[df[column] <= limit]`
    unfoldable pub not_later_than : String → ℕ → List Row → List Row
    not_later_than column limit [] = []
    not_later_than column limit (x ∷ xs) =
        let rest = not_later_than column limit xs in
        elim (c.stamp column x) [ none ↦ rest | some t ↦ if leb t limit then x ∷ rest else rest ]

    -- The rows that are later, where there is a column and a limit.
    unfoldable pub only_updated : List String → Option String → Option ℕ → List Row → List Row
    unfolding later_than contains
    only_updated columns (some column) (some limit) rows =
        if contains column columns then later_than column limit rows else rows
    only_updated columns _ _ rows = rows

    -- the two last cases of `_split_incremental_chunk`
    unfoldable pub split_by_date :
        List String → Option String → Option ℕ → List Row → Frame Row × Frame Row
    unfolding later_than not_later_than contains
    split_by_date columns (some column) (some last) rows =
        if contains column columns
        then (
          record { columns = columns; rows = later_than column last rows },
          record { columns = columns; rows = not_later_than column last rows },
        )
        else (empty_frame, record { columns = columns; rows = rows })
    split_by_date columns _ _ rows = (empty_frame, record { columns = columns; rows = rows })

    -- `to_numeric` of the column `Year` changes no row's key or times
    unfoldable pub split_incremental_chunk :
        String
        → Frame Row
        → Option String
        → Option ℕ
        → Option String
        → Option ℕ
        → Frame Row × Frame Row
    unfolding only_updated is_empty_list split_by_date contains
    split_incremental_chunk table df update_time_column last_update_time datetime_column_name
          last_date_time =
        let rows = only_updated df.columns update_time_column last_update_time df.rows in
        let all_updated : Frame Row × Frame Row = (empty_frame, record df { rows = rows }) in
        if is_empty_list rows
        then (empty_frame, empty_frame)
        else if str_eq table "InstalledGenerationCapacityAggregated"
        then all_updated
        else if contains table full_upsert_tables
        then all_updated
        else split_by_date df.columns datetime_column_name last_date_time rows

    unfoldable pub split_package_refresh_chunk : String → Frame Row → Frame Row × Frame Row
    unfolding deduplicate_on_unique_keys
    split_package_refresh_chunk table df = (empty_frame, deduplicate_on_unique_keys table df)
