-- ===== src/Fms/Frame/Splits.antt =====
-- How `_split_incremental_chunk` splits a chunk.
use open_energy_data_server.Common.{
  ℕ, String, ◌≡◌, refl, true, false, Option, none, some, List, [], ◌∷◌, All, arith, str_eq, ltb,
  leb, Bool-cases, Option-cases, inl, inr, ◌<◌,
}
use open_energy_data_server.Common.Sets.{contains}
use open_energy_data_server.Fms.Items.{full_upsert_tables}
use open_energy_data_server.Fms.Frame.{
  Columns, Frame, is_empty_list, later_than, not_later_than, only_updated, split_by_date,
  split_incremental_chunk,
}

-- the rows of the first list stand, in their order, in one of the two others each
pub data Interleaves {Row : Type 0} : List Row → List Row → List Row → Type 0 where
  finish : Interleaves [] [] []
  left : (x : Row) (xs ys zs : List Row) → Interleaves xs ys zs → Interleaves (x ∷ xs) (x ∷ ys) zs
  right : (x : Row) (xs ys zs : List Row) → Interleaves xs ys zs → Interleaves (x ∷ xs) ys (x ∷ zs)

-- the second list has the rows of the first that have the property, in their order
pub data Filtered {Row : Type 0} (P : Row → Type 0) : List Row → List Row → Type 0 where
  done : Filtered P [] []
  takes : (x : Row) (xs ys : List Row) → P x → Filtered P xs ys → Filtered P (x ∷ xs) (x ∷ ys)
  leaves : (x : Row) (xs ys : List Row) → ¬ P x → Filtered P xs ys → Filtered P (x ∷ xs) ys

over_limit : (last t : ℕ) → ltb last t ≡ true → leb t last ≡ false
over_limit last t h = ground arith

within_limit : (last t : ℕ) → ltb last t ≡ false → leb t last ≡ true
within_limit last t h = ground arith

module _ {Row : Type 0} (c : Columns Row) where
  abbrev pub Dated : Option String → List Row → Type 0
  Dated none rows = Unit {0}
  Dated (some column) rows = All (λ x. (t : ℕ) × (c.stamp column x ≡ some t)) rows

  all_right : (rows : List Row) → Interleaves rows [] rows
  all_right [] = finish
  all_right (x ∷ xs) = right x xs [] xs (all_right xs)

  date-Interleaves :
      (column : String) (last : ℕ) (rows : List Row)
      → Dated (some column) rows
      → Interleaves rows (later_than c column last rows) (not_later_than c column last rows)
  unfolding later_than not_later_than
  date-Interleaves column last [] v = finish
  date-Interleaves column last (x ∷ xs) v =
      let (t, e) = v.0 in
      let rest = date-Interleaves column last xs v.1 in
      elim (Bool-cases (ltb last t)) [
        | inl later ↦
            rw (e, later_than, not_later_than)
              (rw later (rw (over_limit last t later) (left x xs _ _ rest)))
        | inr early ↦
            rw (e, later_than, not_later_than)
              (rw early (rw (within_limit last t early) (right x xs _ _ rest)))
      ]

  no_rows : (rows : List Row) → is_empty_list rows ≡ true → rows ≡ []
  unfolding is_empty_list
  no_rows [] h = refl
  no_rows (x ∷ xs) h = absurd (ground arith)

  by_date-Interleaves :
      (columns : List String) (date : Option String) (last : Option ℕ) (rows : List Row)
      → Dated date rows
      → let (df_insert, df_update) = split_by_date c columns date last rows in
        Interleaves rows df_insert.rows df_update.rows
  unfolding split_by_date
  by_date-Interleaves columns none last rows v = all_right rows
  by_date-Interleaves columns (some column) none rows v = all_right rows
  by_date-Interleaves columns (some column) (some last) rows v =
      elim (Bool-cases (contains column columns)) [
        | inl e ↦ rw (e, split_by_date) (date-Interleaves column last rows v)
        | inr e ↦ rw (e, split_by_date) (all_right rows)
      ]

  -- The row is later than the last update, where the chunk has a column of updates and there is a
  -- last one; else every row counts.
  abbrev pub IsNew : List String → Option String → Option ℕ → Row → Type 0
  IsNew columns (some column) (some last) x =
      contains column columns ≡ true → (t : ℕ) × (c.stamp column x ≡ some t) × (last < t)
  IsNew columns (some column) none x = Unit {0}
  IsNew columns none last x = Unit {0}

  all_new : (P : Row → Type 0) (every : (x : Row) → P x) (rows : List Row) → Filtered P rows rows
  all_new P every [] = done
  all_new P every (x ∷ xs) = takes x xs xs (every x) (all_new P every xs)

  later-Filtered :
      (columns : List String) (column : String) (last : ℕ) (rows : List Row)
      → contains column columns ≡ true
      → Filtered (IsNew columns (some column) (some last)) rows (later_than c column last rows)
  unfolding later_than
  later-Filtered columns column last [] there = done
  later-Filtered columns column last (x ∷ xs) there =
      let rest = later-Filtered columns column last xs there in
      elim (Option-cases (c.stamp column x)) [
        | inl e ↦
            rw (e, later_than)
              (leaves x xs _ (λ h. let (t, q, l) = h there in ground (arith, e, q)) rest)
        | inr (t, e) ↦ elim (Bool-cases (ltb last t)) [
          | inl f ↦ rw (e, later_than) (rw f (takes x xs _ (λ h. (t, e, ground arith)) rest))
          | inr f ↦
              rw (e, later_than)
                (rw f
                  (leaves x xs _ (λ h. let (u, q, l) = h there in ground (arith, e, q, l, f)) rest))
        ]
      ]

  updated-Filtered :
      (columns : List String) (update : Option String) (last : Option ℕ) (rows : List Row)
      → Filtered (IsNew columns update last) rows (only_updated c columns update last rows)
  unfolding only_updated
  updated-Filtered columns (some column) (some last) rows =
      elim (Bool-cases (contains column columns)) [
        | inl e ↦ rw (e, only_updated) (later-Filtered columns column last rows e)
        | inr e ↦
            rw (e, only_updated)
              (all_new (IsNew columns (some column) (some last)) (λ x h. absurd (ground arith))
                rows)
      ]
  updated-Filtered columns (some column) none rows = all_new _ (λ x. tt) rows
  updated-Filtered columns none last rows = all_new _ (λ x. tt) rows

  Filtered-Dated :
      (P : Row → Type 0) (date : Option String) (rows kept : List Row)
      → Filtered P rows kept
      → Dated date rows
      → Dated date kept
  Filtered-Dated P none rows kept f v = tt
  Filtered-Dated P (some column) _ _ done v = tt
  Filtered-Dated P (some column) _ _ (takes x xs ys p f) v =
      (v.0, Filtered-Dated P (some column) xs ys f v.1)
  Filtered-Dated P (some column) _ _ (leaves x xs ys p f) v =
      Filtered-Dated P (some column) xs ys f v.1

  -- The split of a chunk whose rows have dates takes the rows that are later than the last update,
  -- and no other, and puts each of them, in the order of the chunk, into one of the two parts.
  pub split_incremental_chunk-Interleaves :
      (table : String) (df : Frame Row) (update_time_column : Option String)
      (last_update_time : Option ℕ) (datetime_column_name : Option String)
      (last_date_time : Option ℕ)
      → Dated datetime_column_name df.rows
      → let (df_insert, df_update) =
          split_incremental_chunk c table df update_time_column last_update_time
            datetime_column_name last_date_time in
        (rows : List Row) × Filtered
          (IsNew df.columns update_time_column last_update_time)
          df.rows
          rows
        × Interleaves rows df_insert.rows df_update.rows
  unfolding split_incremental_chunk
  split_incremental_chunk-Interleaves table df update last date last_date v =
      let rows = only_updated c df.columns update last df.rows in
      let filtered = updated-Filtered df.columns update last df.rows in
      let dated =
        by_date-Interleaves df.columns date last_date rows
          (Filtered-Dated _ date df.rows rows filtered v) in
      (
        rows,
        filtered,
        elim (Bool-cases (is_empty_list rows)) [
          | inl e ↦ rw e (rw (no_rows rows e) finish)
          | inr e ↦ rw e (elim (Bool-cases (str_eq table "InstalledGenerationCapacityAggregated")) [
            | inl f ↦ rw f (all_right rows)
            | inr f ↦ rw f (elim (Bool-cases (contains table full_upsert_tables)) [
              | inl g ↦ rw g (all_right rows)
              | inr g ↦ rw g dated
            ])
          ])
        ],
      )
