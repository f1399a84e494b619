-- ===== src/Gapfill/Window/Replace.antt =====
-- What replacing a window of the target table leaves.
use open_energy_data_server.Common.{ℕ, ◌≡◌, refl, ap, ◌∙◌, some, List, [], ◌∷◌, ◌++◌, All, arith}
use open_energy_data_server.Gapfill.Tables.{Row}
use open_energy_data_server.Gapfill.Window.{
  read_source_window, delete_window, replace_target_window,
}
use open_energy_data_server.Gapfill.Window.Laws.{Within}

delete_window-append :
    (a b : ℕ) (xs ys : List Row)
    → delete_window a b (xs ++ ys) ≡ delete_window a b xs ++ delete_window a b ys
unfolding delete_window
delete_window-append a b [] ys = refl
delete_window-append a b (x ∷ xs) ys = ground (arith, delete_window-append a b xs ys)

delete_window-twice :
    (a b : ℕ) (xs : List Row) → delete_window a b (delete_window a b xs) ≡ delete_window a b xs
unfolding delete_window
delete_window-twice a b [] = refl
delete_window-twice a b (x ∷ xs) = ground (arith, delete_window-twice a b xs)

delete_everything : (a b : ℕ) (xs : List Row) → All (Within a b) xs → delete_window a b xs ≡ []
unfolding delete_window
delete_everything a b [] h = refl
delete_everything a b (x ∷ xs) h = ground (arith, h.0, delete_everything a b xs h.1)

read_of_deleted :
    (a b : ℕ) (xs ys : List Row)
    → read_source_window a b (delete_window a b xs ++ ys) ≡ read_source_window a b ys
unfolding delete_window read_source_window
read_of_deleted a b [] ys = refl
read_of_deleted a b (x ∷ xs) ys = ground (arith, read_of_deleted a b xs ys)

read_everything : (a b : ℕ) (xs : List Row) → All (Within a b) xs → read_source_window a b xs ≡ xs
unfolding read_source_window
read_everything a b [] h = refl
read_everything a b (x ∷ xs) h = ground (arith, h.0, read_everything a b xs h.1)

append_nothing : (xs : List Row) → xs ++ [] ≡ xs
append_nothing [] = refl
append_nothing (x ∷ xs) = ap (◌∷◌ x) (append_nothing xs)

-- Replacing a window by rows of the window leaves exactly these rows in the window, every other row
-- of the table outside it, and comes to the same a second time.
pub replace_target_window_replaces :
    (a b : ℕ) (dataframe rows : List Row)
    → All (Within a b) dataframe
    → (read_source_window a b (replace_target_window a b dataframe (some rows)) ≡ dataframe)
      × (delete_window a b (replace_target_window a b dataframe (some rows))
          ≡ delete_window a b rows)
      × (replace_target_window a b dataframe
            (some (replace_target_window a b dataframe (some rows)))
          ≡ replace_target_window a b dataframe (some rows))
unfolding replace_target_window
replace_target_window_replaces a b dataframe rows h = (
  read_of_deleted a b rows dataframe ∙ read_everything a b dataframe h,
  outside,
  ap (λ xs. xs ++ dataframe) outside,
)
  where
    outside : delete_window a b (delete_window a b rows ++ dataframe) ≡ delete_window a b rows
    outside =
        delete_window-append a b (delete_window a b rows) dataframe
        ∙ ap (λ ys. delete_window a b (delete_window a b rows) ++ ys)
            (delete_everything a b dataframe h)
        ∙ append_nothing (delete_window a b (delete_window a b rows))
        ∙ delete_window-twice a b rows
