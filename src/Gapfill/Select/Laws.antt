-- ===== src/Gapfill/Select/Laws.antt =====
-- Which tables a selection gives, and that it knows those the admin lets pass.
use open_energy_data_server.Common.{
  Bool, ◌&&◌, String, ◌≡◌, refl, true, some, List, [], ◌∷◌, All, arith, str_eq, Bool-cases, inl,
  inr,
}
use open_energy_data_server.Common.Dict.{Dict}
use open_energy_data_server.Common.Sets.{contains}
use open_energy_data_server.Gapfill.Tables.{TimeSeriesTableConfig}
use open_energy_data_server.Gapfill.Select.{
  selected, Settings, gapfill_methods, known_table, method_for, validate_method, select_table,
  select_loop,
}
use open_energy_data_server.Gapfill.Script.Laws.{is_table_name}
use open_energy_data_server.Runtime.Prepare.Accepts.{Accepts}

abbrev pub names_of : List TimeSeriesTableConfig → List String
names_of [] = []
names_of (t ∷ ts) = t.table_name ∷ names_of ts

module _ (known_tables : List TimeSeriesTableConfig) (method : String) (methods : Dict String)
    (settings : Settings) where
  -- one selected table for each name: the known one, with the method that is configured for it
  abbrev pub SelectedFor : List String → List (TimeSeriesTableConfig × Settings) → Type 0
  SelectedFor [] [] = Unit {0}
  SelectedFor [] (x ∷ xs) = ⊥
  SelectedFor (n ∷ ns) [] = ⊥
  SelectedFor (n ∷ ns) (x ∷ xs) =
      ((t : TimeSeriesTableConfig) × (known_table n known_tables ≡ some t)
        × (x ≡ (record t { method = method_for method methods n }, settings))
        × (contains (method_for method methods n) gapfill_methods ≡ true))
      × SelectedFor ns xs

  select_table_known :
      (n : String) (t : TimeSeriesTableConfig)
      → known_table n known_tables ≡ some t
      → contains (method_for method methods n) gapfill_methods ≡ true
      → select_table known_tables method methods settings n
        ≡ selected (record t { method = method_for method methods n }, settings)
  unfolding select_table
  select_table_known n t e f = rw (e, select_table) (rw (f, validate_method) refl)

  known_name :
      (n : String) (ts : List TimeSeriesTableConfig)
      → contains n (names_of ts) ≡ true
      → (t : TimeSeriesTableConfig) × (known_table n ts ≡ some t)
  unfolding known_table contains
  known_name n [] h = absurd (ground arith)
  known_name n (t ∷ ts) h = elim (Bool-cases (str_eq t.table_name n)) [
    | inl e ↦ (t, rw e refl)
    | inr e ↦ let (u, q) = known_name n ts (ground arith) in (u, rw e q)
  ]

  pub select_loop_known :
      (names : List String)
      → All (λ n. contains n (names_of known_tables) ≡ true) names
      → All (λ n. contains (method_for method methods n) gapfill_methods ≡ true) names
      → (ts : List (TimeSeriesTableConfig × Settings)) × (select_loop known_tables method methods
            settings names
          ≡ selected ts)
        × SelectedFor names ts
  unfolding select_loop
  select_loop_known [] v w = ([], refl, tt)
  select_loop_known (n ∷ names) v w =
      let (t, known) = known_name n known_tables v.0 in
      let (ts, rest, good) = select_loop_known names v.1 w.1 in
      (
        (record t { method = method_for method methods n }, settings) ∷ ts,
        rw (select_table_known n t known w.0, select_loop) (rw rest refl),
        ((t, known, refl, w.0), good),
      )

all_readable : List String → Bool
all_readable [] = true
all_readable (n ∷ names) = is_table_name n && all_readable names
