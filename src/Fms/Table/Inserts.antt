-- ===== src/Fms/Table/Inserts.antt =====
-- An insert leaves the rows that an upsert leaves.
use open_energy_data_server.Common.{
  ℕ, zero, suc, ◌≤◌, String, ◌≡◌, refl, sym, subst, ap, ◌∙◌, true, false, none, List, [], ◌∷◌, ◌++◌,
  ◌||◌, arith, str_eq, eq_iff, Bool-cases, Option-cases, inl, inr,
}
use open_energy_data_server.Fms.Items.{update_time_columns}
use open_energy_data_server.Fms.Frame.{Columns, Frame, is_empty_list, has_key, first_in}
use open_energy_data_server.Fms.Frame.Newest.{
  last_with, later_of, newest, newest_of, KeysDistinct, last_with-deduplicate_on_unique_keys,
  has_key-last_with, last_with-has_key,
}
use open_energy_data_server.Fms.Table.{
  take_batch, drop_batch, count, upsert_dataframe, conflicts, insert_batch, insert_batches,
  insert_dataframe, flush_to_database,
}
use open_energy_data_server.Fms.Table.Laws.{
  row_of, over, take_drop, count-drop_batch, last_with-batches, row_of-upsert_dataframe,
}

module _ {Row : Type 0} (c : Columns Row) where
  has_key-append :
      (table k : String) (xs ys : List Row)
      → has_key c table k (xs ++ ys) ≡ (has_key c table k xs || has_key c table k ys)
  unfolding has_key
  has_key-append table k [] ys = refl
  has_key-append table k (x ∷ xs) ys = ground (arith, has_key-append table k xs ys)

  KeysDistinct-append :
      (table : String) (xs ys : List Row)
      → KeysDistinct c table (xs ++ ys)
      → KeysDistinct c table xs × KeysDistinct c table ys
  KeysDistinct-append table [] ys v = (tt, v)
  KeysDistinct-append table (x ∷ xs) ys v =
      let (first, rest) = KeysDistinct-append table xs ys v.1 in
      ((ground (arith, v.0, has_key-append table (c.key table x) xs ys), first), rest)

  batches-KeysDistinct :
      (n : ℕ) (table : String) (rows : List Row)
      → KeysDistinct c table rows
      → KeysDistinct c table (take_batch c n rows) × KeysDistinct c table (drop_batch c n rows)
  batches-KeysDistinct n table rows v =
      KeysDistinct-append table (take_batch c n rows) (drop_batch c n rows)
        (subst (KeysDistinct c table) (sym (take_drop c n rows)) v)

  newest-eq-last_with :
      (column table k : String) (rows : List Row)
      → KeysDistinct c table rows
      → newest c column table k rows ≡ last_with c table k rows
  unfolding newest last_with later_of
  newest-eq-last_with column table k [] v = refl
  newest-eq-last_with column table k (x ∷ xs) v = elim (Bool-cases (str_eq (c.key table x) k)) [
    | inl e ↦
        let named : c.key table x ≡ k = ground (arith, eq_iff (c.key table x) k) in
        let alone =
          has_key-last_with c table k xs (subst (λ j. has_key c table j xs ≡ false) named v.0) in
        ground (arith, e, alone, newest-eq-last_with column table k xs v.1)
    | inr e ↦ ground (arith, e, newest-eq-last_with column table k xs v.1)
  ]

  newest_of-eq-last_with :
      (table k : String) (df : Frame Row)
      → KeysDistinct c table df.rows
      → newest_of c table k df ≡ last_with c table k df.rows
  unfolding newest_of last_with
  newest_of-eq-last_with table k df v =
      elim (Option-cases (first_in df.columns update_time_columns)) [
        | inl e ↦ rw (e, newest_of) refl
        | inr (column, e) ↦ rw (e, newest_of) (newest-eq-last_with column table k df.rows v)
      ]

  row_of-append :
      (table k : String) (xs ys : List Row)
      → row_of c table k (xs ++ ys) ≡ over (row_of c table k xs) (row_of c table k ys)
  unfolding row_of over
  row_of-append table k [] ys = refl
  row_of-append table k (x ∷ xs) ys = ground (arith, row_of-append table k xs ys)

  row_of-has_key :
      (table k : String) (xs : List Row) → has_key c table k xs ≡ false → row_of c table k xs ≡ none
  unfolding row_of has_key
  row_of-has_key table k [] h = refl
  row_of-has_key table k (x ∷ xs) h = ground (arith, row_of-has_key table k xs)

  row_of-eq-last_with :
      (table k : String) (rows : List Row)
      → KeysDistinct c table rows
      → row_of c table k rows ≡ last_with c table k rows
  unfolding row_of last_with
  row_of-eq-last_with table k [] v = refl
  row_of-eq-last_with table k (x ∷ xs) v = elim (Bool-cases (str_eq (c.key table x) k)) [
    | inl e ↦
        let named : c.key table x ≡ k = ground (arith, eq_iff (c.key table x) k) in
        let alone =
          has_key-last_with c table k xs (subst (λ j. has_key c table j xs ≡ false) named v.0) in
        ground (arith, e, alone)
    | inr e ↦ ground (arith, e, row_of-eq-last_with table k xs v.1)
  ]

  no_conflict :
      (table k : String) (batch stored : List Row)
      → conflicts c table batch stored ≡ false
      → has_key c table k batch ≡ true
      → row_of c table k stored ≡ none
  unfolding conflicts has_key
  no_conflict table k [] stored h g = absurd (ground arith)
  no_conflict table k (x ∷ xs) stored h g = elim (Bool-cases (str_eq (c.key table x) k)) [
    | inl e ↦
        let named : c.key table x ≡ k = ground (arith, eq_iff (c.key table x) k) in
        let free : has_key c table (c.key table x) stored ≡ false = ground (arith, h) in
        row_of-has_key table k stored (subst (λ j. has_key c table j stored ≡ false) named free)
    | inr e ↦ no_conflict table k xs stored (ground (arith, h)) (ground (arith, e, g))
  ]

  row_of-insert_batch :
      (table k : String) (columns : List String) (batch stored : List Row)
      → KeysDistinct c table batch
      → row_of c table k (insert_batch c table columns batch stored)
        ≡ over (last_with c table k batch) (row_of c table k stored)
  unfolding insert_batch over
  row_of-insert_batch table k columns batch stored v =
      elim (Bool-cases (conflicts c table batch stored)) [
        | inl e ↦ rw e (
            row_of-upsert_dataframe c table k (record { columns = columns; rows = batch }) stored
            ∙ ap (λ o. over o (row_of c table k stored))
                (newest_of-eq-last_with table k (record { columns = columns; rows = batch }) v))
        | inr e ↦ rw e (elim (Bool-cases (has_key c table k batch)) [
          | inl g ↦
              let free = no_conflict table k batch stored e g in
              let (x, found) = last_with-has_key c table k batch g in
              ground (
                arith,
                free,
                found,
                row_of-append table k stored batch,
                row_of-eq-last_with table k batch v,
              )
          | inr g ↦
              let gone = has_key-last_with c table k batch g in
              ground (
                arith,
                gone,
                row_of-append table k stored batch,
                row_of-eq-last_with table k batch v,
              )
        ])
      ]

  row_of-insert_batches :
      (n fuel : ℕ) (table k : String) (columns : List String) (rows stored : List Row)
      → KeysDistinct c table rows
      → count c rows ≤ fuel
      → row_of c table k (insert_batches c (suc n) fuel table columns rows stored)
        ≡ over (last_with c table k rows) (row_of c table k stored)
  unfolding insert_batches is_empty_list count over last_with
  row_of-insert_batches n zero table k columns [] stored v h = refl
  row_of-insert_batches n zero table k columns (x ∷ xs) stored v h = absurd (omega (arith, h))
  row_of-insert_batches n (suc fuel) table k columns [] stored v h = refl
  row_of-insert_batches n (suc fuel) table k columns (x ∷ xs) stored v h =
      let (first, rest) = batches-KeysDistinct (suc n) table (x ∷ xs) v in
      row_of-insert_batches n fuel table k columns (drop_batch c n xs) _ rest
        (omega (arith, h, count-drop_batch c n xs))
      ∙ ap (λ o. over (last_with c table k (drop_batch c n xs)) o)
          (row_of-insert_batch table k columns (take_batch c (suc n) (x ∷ xs)) stored first)
      ∙ last_with-batches c (suc n) table k (x ∷ xs) (row_of c table k stored)

  -- An insert of a dataframe, whose batches are upserted where they conflict, leaves for every key
  -- the row that an upsert of the dataframe leaves, and that is the newest row that the dataframe
  -- has for the key, or else the row that was stored.
  pub insert_dataframe_upserts :
      (table k : String) (df : Frame Row) (stored : List Row)
      → (row_of c table k (insert_dataframe c table df stored)
          ≡ row_of c table k (upsert_dataframe c table df stored))
        × (row_of c table k (upsert_dataframe c table df stored)
            ≡ over (newest_of c table k df) (row_of c table k stored))
  unfolding insert_dataframe
  insert_dataframe_upserts table k df stored =
      let (distinct, newest_there) = last_with-deduplicate_on_unique_keys c table k df in
      let upserted = row_of-upsert_dataframe c table k df stored in
      (
        row_of-insert_batches 4999 _ table k df.columns _ stored distinct (omega arith)
            ∙ ap (λ o. over o (row_of c table k stored)) newest_there
            ∙ sym upserted,
        upserted,
      )

  -- After a flush a key has the newest row of the dataframe to insert, else that of the dataframe
  -- to update, else its old row.
  pub row_of-flush_to_database :
      (table k : String) (df_insert df_update : Frame Row) (stored : List Row)
      → row_of c table k (flush_to_database c table df_insert df_update stored)
        ≡ over
            (newest_of c table k df_insert)
            (over (newest_of c table k df_update) (row_of c table k stored))
  unfolding flush_to_database
  row_of-flush_to_database table k df_insert df_update stored =
      let written = upsert_dataframe c table df_update stored in
      let (same, inserted) = insert_dataframe_upserts table k df_insert written in
      same
      ∙ inserted
      ∙ ap (λ o. over (newest_of c table k df_insert) o)
          (row_of-upsert_dataframe c table k df_update stored)
