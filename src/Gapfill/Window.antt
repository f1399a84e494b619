-- ===== src/Gapfill/Window.antt =====
-- `get_processing_window`, `read_source_window` and `replace_target_window` of
-- scripts/lib/gapfiller/db.py, as what their statements select, delete and insert.
pub mod Laws
pub mod Replace
use open_energy_data_server.Common.{
  ℕ, suc, ◌-◌, ◌+◌, max, min, String, Bool, true, false, not, ◌&&◌, Option, none, some, List, [],
  ◌∷◌, ◌++◌, leb, ltb, if◌then◌else◌, length,
}
use open_energy_data_server.Common.Sets.{contains}
use open_energy_data_server.Gapfill.Tables.{TrackingState, WindowInfo, Row}

-- `time >= :start`, for a bound that is given; a null is not selected
unfoldable pub at_least : Option ℕ → ℕ → Bool
at_least none t = true
at_least (some start) t = leb start t

unfoldable pub at_most : Option ℕ → ℕ → Bool
at_most none t = true
at_most (some end) t = leb t end

-- `config.update_time_column in source_columns`
unfoldable pub has_update_column : Option String → List String → Bool
unfolding contains
has_update_column none source_columns = false
has_update_column (some column) source_columns = contains column source_columns

unfoldable pub later_than : ℕ → Option ℕ → Bool
later_than last none = false
later_than last (some t) = ltb last t

-- the part of the condition that reads the tracking state, for a run without manual bounds
unfoldable pub is_new : Bool → TrackingState → Row → ℕ → Bool
unfolding later_than
is_new update_column tracking row t = elim tracking.last_update_time [
  | none ↦ elim tracking.last_source_timestamp [ none ↦ true | some last ↦ ltb last t ]
  | some last ↦
      if update_column
      then later_than last row.update_time
      else elim tracking.last_source_timestamp [ none ↦ true | some last ↦ ltb last t ]
]

unfoldable pub is_automatic : Option ℕ → Option ℕ → Bool
is_automatic none none = true
is_automatic _ _ = false

-- the condition of the statement on one row
unfoldable pub is_changed : Bool → TrackingState → Option ℕ → Option ℕ → Row → Bool
unfolding at_least at_most is_new is_automatic
is_changed update_column tracking start end row = elim row.time [
  | none ↦ false
  | some t ↦
      at_least start t
      && at_most end t
      && (if is_automatic start end then is_new update_column tracking row t else true)
]

unfoldable pub changed : Bool → TrackingState → Option ℕ → Option ℕ → List Row → List Row
unfolding is_changed
changed update_column tracking start end [] = []
changed update_column tracking start end (row ∷ rows) =
    let rest = changed update_column tracking start end rows in
    if is_changed update_column tracking start end row then row ∷ rest else rest

-- `MIN`, `MAX`, of what is not null
unfoldable pub lower : Option ℕ → Option ℕ → Option ℕ
lower none b = b
lower (some a) none = some a
lower (some a) (some b) = some (min a b)

unfoldable pub higher : Option ℕ → Option ℕ → Option ℕ
higher none b = b
higher (some a) none = some a
higher (some a) (some b) = some (max a b)

unfoldable pub min_time : List Row → Option ℕ
unfolding lower
min_time [] = none
min_time (row ∷ rows) = lower row.time (min_time rows)

unfoldable pub max_time : List Row → Option ℕ
unfolding higher
max_time [] = none
max_time (row ∷ rows) = higher row.time (max_time rows)

unfoldable pub max_update : List Row → Option ℕ
unfolding higher
max_update [] = none
max_update (row ∷ rows) = higher row.update_time (max_update rows)

-- `tracking.last_source_timestamp is not None or tracking.last_update_time is not None`
unfoldable pub is_tracked : TrackingState → Bool
is_tracked tracking = elim tracking.last_source_timestamp [
  | none ↦ elim tracking.last_update_time [ none ↦ false | some _ ↦ true ]
  | some _ ↦ true
]

unfoldable pub window_of :
    Bool → ℕ → TrackingState → Bool → List Row → Option ℕ → Option ℕ → Option WindowInfo
unfolding is_tracked max_update
window_of update_column lookback tracking automatic rows (some changed_start) (some changed_end) =
    some (record {
      read_start =
          if automatic && is_tracked tracking then changed_start - lookback else changed_start;
      read_end = changed_end;
      changed_start = changed_start;
      changed_end = changed_end;
      max_update_time = if update_column then max_update rows else none;
      changed_rows = length rows;
    })
window_of update_column lookback tracking automatic rows _ _ = none

unfoldable pub get_processing_window :
    Bool → ℕ → TrackingState → Option ℕ → Option ℕ → List Row → Option WindowInfo
unfolding changed window_of min_time max_time is_automatic
get_processing_window update_column lookback tracking start end rows =
    let selected = changed update_column tracking start end rows in
    window_of update_column lookback tracking (is_automatic start end) selected (min_time selected)
      (max_time selected)

-- `time >= :read_start AND time <= :read_end`
unfoldable pub in_window : ℕ → ℕ → Row → Bool
in_window read_start read_end row = elim row.time [
  | none ↦ false
  | some t ↦ leb read_start t && leb t read_end
]

unfoldable pub read_source_window : ℕ → ℕ → List Row → List Row
unfolding in_window
read_source_window read_start read_end [] = []
read_source_window read_start read_end (row ∷ rows) =
    let rest = read_source_window read_start read_end rows in
    if in_window read_start read_end row then row ∷ rest else rest

-- the `DELETE`
unfoldable pub delete_window : ℕ → ℕ → List Row → List Row
unfolding in_window
delete_window read_start read_end [] = []
delete_window read_start read_end (row ∷ rows) =
    let rest = delete_window read_start read_end rows in
    if in_window read_start read_end row then rest else row ∷ rest

-- `none` is a table that does not exist yet
unfoldable pub replace_target_window : ℕ → ℕ → List Row → Option (List Row) → List Row
unfolding delete_window
replace_target_window read_start read_end dataframe none = dataframe
replace_target_window read_start read_end dataframe (some rows) =
    delete_window read_start read_end rows ++ dataframe
