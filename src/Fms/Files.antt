-- ===== src/Fms/Files.antt =====
-- The file service as crawler/entsoe_fms.py uses it: its entries, which of them are processed, and the
-- start of a run. The times are in UTC, and a month is its number, counted from January of the year 0.
use Prim.Native.String.{compare}
use Prim.Native.Nat.{Ordering}
use open_energy_data_server.Common.{
  ℕ, ◌+◌, ◌-◌, String, Bool, true, Option, none, some, List, [], ◌∷◌, str_eq, ltb, if◌then◌else◌,
}
use open_energy_data_server.Yaml.{Value, int}
use open_energy_data_server.Fms.Frame.{Frame}

pub record Meta : Type 0 where
  pub name : Option String
  pub file_id : String

-- what a download ends with: its chunks, a `requests.HTTPError`, or another exception
pub data Downloaded (Row : Type 0) : Type 0 where
  chunks : List (Frame Row) → Downloaded Row
  http_error : Downloaded Row
  other_error : Downloaded Row

pub record Service (Row : Type 0) : Type 0 where
  pub list_metadata : String → Option (List Meta)
  pub download : String → Downloaded Row
  pub lower : String → String
  pub period_of : String → Option ℕ
  pub month_start : ℕ → ℕ
  pub month_of : ℕ → ℕ
  pub is_month : ℕ → Bool

unfoldable pub ends_with : String → String → Bool
ends_with suffix String.[] = str_eq suffix ""
ends_with suffix (String.◌∷◌ ch s) =
    let rest = ends_with suffix s in if str_eq (String.◌∷◌ ch s) suffix then true else rest

-- `meta.get("name", "")` of an entry that `_should_process_metadata_entry` lets through
unfoldable pub name_of : Meta → String
name_of meta = elim meta.name [ none ↦ "" | some name ↦ name ]

module _ {Row : Type 0} (service : Service Row) where
  unfoldable pub should_process_metadata_entry : Meta → Bool
  unfolding ends_with name_of
  should_process_metadata_entry meta = ends_with ".csv" (service.lower (name_of meta))

  unfoldable pub insert_by_name : Meta → List Meta → List Meta
  unfolding name_of
  insert_by_name meta [] = meta ∷ []
  insert_by_name meta (x ∷ xs) =
      let rest = insert_by_name meta xs in
      elim (compare (name_of x) (name_of meta)) [ Ordering.lt ↦ x ∷ rest | _ ↦ meta ∷ x ∷ xs ]

  -- the entries to process, sorted by name
  unfoldable pub sorted_metas : List Meta → List Meta
  unfolding should_process_metadata_entry insert_by_name
  sorted_metas [] = []
  sorted_metas (meta ∷ metas) =
      let rest = sorted_metas metas in
      if should_process_metadata_entry meta then insert_by_name meta rest else rest

  -- `none` where it raises
  unfoldable pub calculate_package_window_start : ℕ → ℕ → Option ℕ
  calculate_package_window_start end_time window_months =
      if ltb window_months 1
      then none
      else (let first_month = service.month_of end_time + 1 - window_months in
          if service.is_month first_month then some (service.month_start first_month) else none)

  -- `int(window_months)` is the argument `int_of`; a number below 1 is refused as 0 is
  unfoldable pub get_run_start_time : (Value → Option Value) → ℕ → Option Value → ℕ → Option ℕ
  unfolding calculate_package_window_start
  get_run_start_time int_of default_start_time none end_time = some default_start_time
  get_run_start_time int_of default_start_time (some window_months) end_time =
      elim (int_of window_months) [
        | some (int n) ↦ calculate_package_window_start end_time n
        | _ ↦ none
      ]
