-- ===== src/Gapfill/Tables.antt =====
-- The records of scripts/lib/gapfiller/config.py, core.py and db.py that the job handles, and what it
-- keeps in the database. A timestamp is a number of nanoseconds in UTC since an origin that lies
-- before every timestamp by more than the lookback.
use open_energy_data_server.Common.{ℕ, String, Bool, Option, List}
use open_energy_data_server.Common.Dict.{Dict}

pub record TimeSeriesTableConfig : Type 0 where
  pub table_name : String
  pub time_column : String
  pub value_columns : List String
  pub groupby_columns : List String
  pub update_time_column : Option String
  pub method : String

pub record GapfillJobConfig : Type 0 where
  pub enabled : Bool
  pub tables : List TimeSeriesTableConfig
  pub lookback : ℕ
  pub fail_on_table_error : Bool

pub record TrackingState : Type 0 where
  pub last_source_timestamp : Option ℕ
  pub last_update_time : Option ℕ

pub record WindowInfo : Type 0 where
  pub read_start : ℕ
  pub read_end : ℕ
  pub changed_start : ℕ
  pub changed_end : ℕ
  pub max_update_time : Option ℕ
  pub changed_rows : ℕ

pub record GroupMetric : Type 0 where
  pub table_name : String
  pub value_column : String
  pub group_key : String
  pub method : String
  pub source_rows : ℕ
  pub output_rows : ℕ
  pub expected_rows : ℕ
  pub created_gap_rows : ℕ
  pub missing_before : ℕ
  pub missing_after : ℕ
  pub filled_values : ℕ
  pub start_time : Option ℕ
  pub end_time : Option ℕ
  pub status : String
  pub error_message : Option String

-- A row of a table: its time, the time of its last update and the rest of it.
pub record Row : Type 0 where
  pub time : Option ℕ
  pub update_time : Option ℕ
  pub values : String

-- A source table, whose rows are listed in the order of their times.
pub record SourceTable : Type 0 where
  pub columns : List String
  pub rows : List Row

-- The tables of the target schema, and the control tables.
pub record Database : Type 0 where
  pub target : Dict (List Row)
  pub tracking : Dict TrackingState
  pub metrics : List GroupMetric
