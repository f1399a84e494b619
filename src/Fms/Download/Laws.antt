-- ===== src/Fms/Download/Laws.antt =====
-- Which files and rows of the file service a run takes.
use open_energy_data_server.Common.{
  ℕ, ◌+◌, ◌-◌, ◌≤◌, String, ◌≡◌, refl, subst, ap, ◌∙◌, true, false, Option, some, List, [], ◌∷◌,
  Bool, arith, ltb, leb, if◌then◌else◌, Bool-cases, Option-cases, inl, inr,
}
use open_energy_data_server.Common.Dict.{Dict}
use open_energy_data_server.Common.Sets.{contains}
use open_energy_data_server.Fms.Frame.{
  Columns, Frame, empty_frame, is_empty_list, later_than, only_updated, split_incremental_chunk,
}
use open_energy_data_server.Fms.Table.{Schema, TableState, get_table_state}
use open_energy_data_server.Fms.Files.{
  Service, Meta, name_of, chunks, calculate_package_window_start,
}
use open_energy_data_server.Fms.Items.{should_skip_date_filter}
use open_energy_data_server.Fms.Download.{
  Progress, flush_chunk, process_chunk, process_chunks, process_file, process_files,
  is_before_start,
}

not_over : (limit t : ℕ) → t ≤ limit → ltb limit t ≡ false
not_over limit t h = ground arith

module _ {Row : Type 0} (c : Columns Row) where
  -- each row's time is missing or at most the limit
  abbrev pub NotLater : String → ℕ → List Row → Type 0
  NotLater column limit [] = Unit {0}
  NotLater column limit (x ∷ xs) =
      ((t : ℕ) → c.stamp column x ≡ some t → t ≤ limit) × NotLater column limit xs

  none_later :
      (column : String) (limit : ℕ) (rows : List Row)
      → NotLater column limit rows
      → later_than c column limit rows ≡ []
  unfolding later_than
  none_later column limit [] v = refl
  none_later column limit (x ∷ xs) v = elim (Option-cases (c.stamp column x)) [
    | inl e ↦ rw (e, later_than) (none_later column limit xs v.1)
    | inr (t, e) ↦
        let small = v.0 t e in
        rw (e, later_than) (rw (not_over limit t small) (none_later column limit xs v.1))
  ]

  stale_split :
      (table : String) (df : Frame Row) (column : String) (last : ℕ) (date : Option String)
      (last_date : Option ℕ)
      → contains column df.columns ≡ true
      → NotLater column last df.rows
      → split_incremental_chunk c table df (some column) (some last) date last_date
        ≡ (empty_frame, empty_frame)
  unfolding split_incremental_chunk only_updated is_empty_list
  stale_split table df column last date last_date there v =
      rw there (rw (none_later column last df.rows v) refl)

  module _ (schema : Schema) where
    -- the column of the update time is in each chunk, and no row is later than the limit
    abbrev pub AllStale : String → ℕ → List (Frame Row) → Type 0
    AllStale column limit [] = Unit {0}
    AllStale column limit (df ∷ dfs) =
        ((contains column df.columns ≡ true) × NotLater column limit df.rows)
        × AllStale column limit dfs

    stale_chunk :
        (state : TableState) (table column : String) (last : ℕ) (df : Frame Row)
        (db : Dict (List Row))
        → state.update_time_column ≡ some column
        → state.last_update_time ≡ some last
        → contains column df.columns ≡ true
        → NotLater column last df.rows
        → process_chunk c schema false false state table df db ≡ db
    unfolding process_chunk flush_chunk is_empty_list
    stale_chunk state table column last df db e f there v =
        rw (f, process_chunk)
          (rw e (
            rw
              (stale_split table df column last state.datetime_column_name state.last_date_time
                there v)
              refl))

    stale_chunks :
        (state : TableState) (table column : String) (last : ℕ) (dfs : List (Frame Row))
        (db : Dict (List Row))
        → state.update_time_column ≡ some column
        → state.last_update_time ≡ some last
        → AllStale column last dfs
        → process_chunks c schema false false state table dfs db ≡ db
    unfolding process_chunks
    stale_chunks state table column last [] db e f v = refl
    stale_chunks state table column last (df ∷ dfs) db e f v =
        ap (λ d. process_chunks c schema false false state table dfs d)
          (stale_chunk state table column last df db e f v.0.0 v.0.1)
        ∙ stale_chunks state table column last dfs db e f v.1

    -- In an incremental run, a file is ignored whose rows are all not later than the latest update
    -- time that its table holds when the file comes up, whether or not the table holds the rows.
    pub stale_file_ignored :
        (table column : String) (last : ℕ) (dfs : List (Frame Row)) (p : Progress Row)
        → p.create ≡ false
        → (get_table_state c schema table p.db).table_exists ≡ true
        → (get_table_state c schema table p.db).update_time_column ≡ some column
        → (get_table_state c schema table p.db).last_update_time ≡ some last
        → AllStale column last dfs
        → process_file c schema false table dfs p ≡ p
    unfolding process_file
    stale_file_ignored table column last dfs p fresh there e f v =
        let state = get_table_state c schema table p.db in
        rw there (
          rw fresh (
            ap (λ d. record p { db = d; create = false })
              (stale_chunks state table column last dfs p.db e f v)))

  module _ (schema : Schema) (service : Service Row) where
    window_months_back :
        (end_time window_months month start : ℕ)
        → ((a b : ℕ) → ltb (service.month_start a) (service.month_start b) ≡ ltb a b)
        → window_months ≤ service.month_of end_time
        → calculate_package_window_start service end_time window_months ≡ some start
        → ltb (service.month_start month) start
          ≡ leb (month + window_months) (service.month_of end_time)
    unfolding calculate_package_window_start
    window_months_back end_time window_months month start ordered bound h =
        elim (Bool-cases (ltb window_months 1)) [
          | inl e ↦ absurd (ground (arith, h, e))
          | inr e ↦
              let begins : service.month_start (service.month_of end_time + 1 - window_months)
                  ≡ start =
                ground (arith, h, e) in
              subst
                (λ x.
                  ltb (service.month_start month) x
                  ≡ leb (month + window_months) (service.month_of end_time))
                begins
                (rw (ordered month (service.month_of end_time + 1 - window_months))
                  (ground (arith, e, bound)))
        ]

    -- In a run that refreshes a window of packages, and whose data item does not skip the date
    -- filter, a file of a month is left out exactly if the month is older than the last window_months
    -- months, the current one among them: if it is older, then the run goes on with the files after
    -- it, and else the file is downloaded and, where the download gives chunks, processed.
    pub package_window :
        (end_time window_months month start : ℕ) (full : Bool) (data_item table : String)
        (meta : Meta) (metas : List Meta) (dfs : List (Frame Row)) (p : Progress Row)
        → ((a b : ℕ) → ltb (service.month_start a) (service.month_start b) ≡ ltb a b)
        → window_months ≤ service.month_of end_time
        → calculate_package_window_start service end_time window_months ≡ some start
        → should_skip_date_filter data_item ≡ false
        → service.period_of (name_of meta) ≡ some month
        → service.download meta.file_id ≡ chunks dfs
        → process_files c schema service full data_item table start (meta ∷ metas) p
          ≡ process_files c schema service full data_item table start metas (
              if leb (month + window_months) (service.month_of end_time)
              then p
              else process_file c schema full table dfs p)
    unfolding process_files is_before_start
    package_window end_time window_months month start full data_item table meta metas dfs p ordered
          bound h filtered dated given =
        rw filtered (
          rw (dated, is_before_start)
            (rw (window_months_back end_time window_months month start ordered bound h)
              (elim (Bool-cases (leb (month + window_months) (service.month_of end_time))) [
                | inl older ↦ rw older refl
                | inr recent ↦ rw recent (rw given refl)
              ])))
