-- ===== src/Fms/Backfill/Laws.antt =====
-- Which periods a backfill goes through, and which data item it is about.
use open_energy_data_server.Common.{
  ℕ, zero, suc, ◌+◌, ◌-◌, ◌≤◌, String, ◌≡◌, refl, sym, subst, ◌∙◌, Bool, true, false, Option, none,
  some, List, [], ◌∷◌, ◌&&◌, All, arith, str_eq, eq_iff, leb, get_elem?, if◌then◌else◌, Bool-cases,
  inl, inr,
}
use open_energy_data_server.Common.Sets.{contains}
use open_energy_data_server.Common.Text.{◌<>◌}
use open_energy_data_server.Fms.Items.{
  active_data_items, all_items, target_files_dirs, data_item_of_dir, single_file_data_items,
  annual_file_data_items,
}
use open_energy_data_server.Fms.Backfill.{period_loop, build_backfill_periods}
use open_energy_data_server.Runtime.Action.{BackfillPayload, run_entsoe_backfill}
use open_energy_data_server.Runtime.DataItems.{
  get_entsoe_backfill_cadence, item_names, fms_active_data_items,
}
use open_energy_data_server.Runtime.Prepare.Accepts.{Accepts}

past : (dt end_dt i : ℕ) → leb dt end_dt ≡ false → leb (dt + i) end_dt ≡ false
past dt end_dt i h = ground arith

get_elem?-period_loop :
    (fuel : ℕ) (strftime : ℕ → String) (dt end_dt i : ℕ)
    → end_dt + 1 ≤ dt + fuel
    → get_elem? (period_loop fuel strftime dt end_dt) i
      ≡ (if leb (dt + i) end_dt then some (strftime (dt + i)) else none)
unfolding period_loop
get_elem?-period_loop zero strftime dt end_dt i h = rw (beyond dt end_dt i h) refl
  where
    beyond : (dt end_dt i : ℕ) → end_dt + 1 ≤ dt + 0 → leb (dt + i) end_dt ≡ false
    beyond dt end_dt i h = ground arith
get_elem?-period_loop (suc fuel) strftime dt end_dt zero h = ground arith
get_elem?-period_loop (suc fuel) strftime dt end_dt (suc i) h = elim (Bool-cases (leb dt end_dt)) [
  | inl e ↦
      let moved : dt + 1 + i ≡ dt + suc i = omega arith in
      rw e (
        subst
          (λ n.
            get_elem? (period_loop fuel strftime (dt + 1) end_dt) i
            ≡ (if leb n end_dt then some (strftime n) else none))
          moved (get_elem?-period_loop fuel strftime (dt + 1) end_dt i (omega (arith, h))))
  | inr e ↦ rw e (rw (past dt end_dt (suc i) e) refl)
]

-- The periods of a backfill are those from its start to its end, both included, each once and in
-- order.
pub build_backfill_periods_covers :
    (read : String → Option ℕ) (strftime : ℕ → String) (start finish : String) (a b : ℕ)
    → read start ≡ some a
    → read finish ≡ some b
    → (periods : List String) × (build_backfill_periods read strftime start finish ≡ some periods)
      × ((i : ℕ) → get_elem? periods i ≡ (if leb (a + i) b then some (strftime (a + i)) else none))
unfolding build_backfill_periods
build_backfill_periods_covers read strftime start finish a b e f = (
  period_loop (b + 2 - a) strftime a b,
  ground arith,
  λ i. get_elem?-period_loop (b + 2 - a) strftime a b i (omega arith),
)

dirs_of :
    (items : List (String × String)) (i : ℕ) (d : String)
    → All (λ x. data_item_of_dir ("/TP_export/" <> x <> "/") ≡ x) (all_items items)
    → get_elem? (all_items items) i ≡ some d
    → (dir : String) × (get_elem? (target_files_dirs items) i ≡ some dir)
      × (data_item_of_dir dir ≡ d)
unfolding all_items target_files_dirs
dirs_of [] i d v h = absurd (ground arith)
dirs_of ((x, _) ∷ items) zero d v h = ("/TP_export/" <> x <> "/", refl, v.0 ∙ ground arith)
dirs_of ((x, _) ∷ items) (suc i) d v h = dirs_of items i d v.1 h

-- Each name is read back from its folder.
read_back : List String → Bool
read_back [] = true
read_back (x ∷ xs) = str_eq (data_item_of_dir ("/TP_export/" <> x <> "/")) x && read_back xs

read_back_sound :
    (xs : List String)
    → read_back xs ≡ true
    → All (λ x. data_item_of_dir ("/TP_export/" <> x <> "/") ≡ x) xs
unfolding read_back
read_back_sound [] h = tt
read_back_sound (x ∷ xs) h = (
  ground (arith, eq_iff (data_item_of_dir ("/TP_export/" <> x <> "/")) x),
  read_back_sound xs (ground arith),
)

names_read :
    All (λ x. data_item_of_dir ("/TP_export/" <> x <> "/") ≡ x) (all_items active_data_items)
unfolding read_back all_items data_item_of_dir
names_read = read_back_sound (all_items active_data_items) refl

-- The admin and the crawler list the same items.
same_items : all_items active_data_items ≡ item_names fms_active_data_items
unfolding all_items item_names
same_items = refl

-- A backfill that the admin prepares is about the data item asked for: the index leads the crawler
-- to the folder of that item, and the admin's cadence is the one that the crawler goes by.
pub prepared_backfill_item :
    (crawler_name : String) (p : BackfillPayload)
    → Accepts crawler_name (run_entsoe_backfill p)
    → ((dir : String) × (get_elem? (target_files_dirs active_data_items) p.target_files_dir_index
          ≡ some dir)
        × (data_item_of_dir dir ≡ p.data_item))
      × (p.cadence ≡ (
          if contains p.data_item single_file_data_items
          then "single"
          else if contains p.data_item annual_file_data_items
          then "annual"
          else "monthly"))
unfolding get_entsoe_backfill_cadence
prepared_backfill_item crawler_name p v = (
  dirs_of active_data_items p.target_files_dir_index p.data_item names_read (
      subst (λ names. get_elem? names p.target_files_dir_index ≡ some p.data_item) (sym same_items)
        v.0),
  v.1,
)
