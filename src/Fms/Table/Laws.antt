-- ===== src/Fms/Table/Laws.antt =====
-- What the writes do to the row of a key.
use open_energy_data_server.Common.{
  ℕ, zero, suc, ◌≤◌, String, ◌≡◌, refl, subst, ap, ◌∙◌, Option, none, some, List, [], ◌∷◌, ◌++◌,
  arith, str_eq, eq_iff, if◌then◌else◌,
}
use open_energy_data_server.Fms.Frame.{Columns, Frame, is_empty_list}
use open_energy_data_server.Fms.Frame.Newest.{
  last_with, newest_of, last_with-deduplicate_on_unique_keys,
}
use open_energy_data_server.Fms.Table.{
  upsert_row, upsert_rows, take_batch, drop_batch, upsert_batches, count, upsert_dataframe,
}

-- the rows written, over those stored
unfoldable pub over {ℓ} : {A : Type ℓ} → Option A → Option A → Option A
over none b = b
over (some a) b = some a

module _ {Row : Type 0} (c : Columns Row) where
  -- the row of a key in a table
  unfoldable pub row_of : String → String → List Row → Option Row
  row_of table k [] = none
  row_of table k (x ∷ xs) = if str_eq (c.key table x) k then some x else row_of table k xs

  pub row_of-upsert_row :
      (table k : String) (x : Row) (ys : List Row)
      → row_of table k (upsert_row c table x ys)
        ≡ (if str_eq (c.key table x) k then some x else row_of table k ys)
  unfolding row_of upsert_row
  row_of-upsert_row table k x [] = refl
  row_of-upsert_row table k x (y ∷ ys) = ground (
    arith,
    eq_iff (c.key table x) k,
    eq_iff (c.key table y) k,
    eq_iff (c.key table y) (c.key table x),
    row_of-upsert_row table k x ys,
  )

  row_of-upsert_rows :
      (table k : String) (xs stored : List Row)
      → row_of table k (upsert_rows c table xs stored)
        ≡ over (last_with c table k xs) (row_of table k stored)
  unfolding upsert_rows last_with over
  row_of-upsert_rows table k [] stored = refl
  row_of-upsert_rows table k (x ∷ xs) stored = ground (
    arith,
    row_of-upsert_rows table k xs (upsert_row c table x stored),
    row_of-upsert_row table k x stored,
  )

  pub take_drop : (n : ℕ) (xs : List Row) → take_batch c n xs ++ drop_batch c n xs ≡ xs
  unfolding take_batch drop_batch
  take_drop zero xs = refl
  take_drop (suc n) [] = refl
  take_drop (suc n) (x ∷ xs) = ap (λ zs. x ∷ zs) (take_drop n xs)

  pub count-drop_batch : (n : ℕ) (xs : List Row) → count c (drop_batch c n xs) ≤ count c xs
  unfolding count drop_batch
  count-drop_batch zero xs = omega arith
  count-drop_batch (suc n) [] = omega arith
  count-drop_batch (suc n) (x ∷ xs) = omega (arith, count-drop_batch n xs)

  pub last_with-append :
      (table k : String) (xs ys : List Row)
      → last_with c table k (xs ++ ys) ≡ over (last_with c table k ys) (last_with c table k xs)
  unfolding last_with over
  last_with-append table k [] ys = ground arith
  last_with-append table k (x ∷ xs) ys = ground (arith, last_with-append table k xs ys)

  pub last_with-batches :
      (n : ℕ) (table k : String) (rows : List Row) (o : Option Row)
      → over
          (last_with c table k (drop_batch c n rows))
          (over (last_with c table k (take_batch c n rows)) o)
        ≡ over (last_with c table k rows) o
  unfolding over
  last_with-batches n table k rows o =
      let whole =
        subst
          (λ zs.
            last_with c table k zs
            ≡ over (last_with c table k (drop_batch c n rows))
                (last_with c table k (take_batch c n rows)))
          (take_drop n rows)
          (last_with-append table k (take_batch c n rows) (drop_batch c n rows)) in
      ground (arith, whole)

  -- with as much fuel as rows, the batches are all written
  row_of-upsert_batches :
      (n fuel : ℕ) (table k : String) (rows stored : List Row)
      → count c rows ≤ fuel
      → row_of table k (upsert_batches c (suc n) fuel table rows stored)
        ≡ over (last_with c table k rows) (row_of table k stored)
  unfolding upsert_batches is_empty_list count over last_with
  row_of-upsert_batches n zero table k [] stored h = refl
  row_of-upsert_batches n zero table k (x ∷ xs) stored h = absurd (omega (arith, h))
  row_of-upsert_batches n (suc fuel) table k [] stored h = refl
  row_of-upsert_batches n (suc fuel) table k (x ∷ xs) stored h =
      row_of-upsert_batches n fuel table k (drop_batch c n xs) _
        (omega (arith, h, count-drop_batch n xs))
      ∙ ap (λ o. over (last_with c table k (drop_batch c n xs)) o)
          (row_of-upsert_rows table k (take_batch c (suc n) (x ∷ xs)) stored)
      ∙ last_with-batches (suc n) table k (x ∷ xs) (row_of table k stored)

  -- After an upsert a key has the newest row that the dataframe has for it, or else its old row.
  pub row_of-upsert_dataframe :
      (table k : String) (df : Frame Row) (stored : List Row)
      → row_of table k (upsert_dataframe c table df stored)
        ≡ over (newest_of c table k df) (row_of table k stored)
  unfolding upsert_dataframe
  row_of-upsert_dataframe table k df stored =
      row_of-upsert_batches 4999 _ table k _ stored (omega arith)
      ∙ ap (λ o. over o (row_of table k stored))
          (last_with-deduplicate_on_unique_keys c table k df).1
