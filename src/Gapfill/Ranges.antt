-- ===== src/Gapfill/Ranges.antt =====
-- `_GapRange`, `_missing_ranges`, `_eligible_missing_mask` and `_mark_gap_if_eligible` of
-- scripts/lib/gapfiller/core.py. A negative `max_gap_periods` acts as 0.
pub mod Runs
pub mod Eligible
use open_energy_data_server.Common.{
  ℕ, zero, suc, ◌+◌, ◌-◌, Bool, true, false, ◌&&◌, ◌||◌, List, [], ◌∷◌, map, ◌==◌, leb,
  if◌then◌else◌,
}

pub record GapRange : Type 0 where
  pub start : ℕ
  pub end : ℕ

unfoldable pub gap_length : GapRange → ℕ
gap_length r = r.end + 1 - r.start

-- `np.flatnonzero`, for a mask whose first position is `i`
unfoldable pub flatnonzero : ℕ → List Bool → List ℕ
flatnonzero i [] = []
flatnonzero i (b ∷ mask) = let rest = flatnonzero (suc i) mask in if b then i ∷ rest else rest

-- the loop over `positions[1:]`, with the append that ends it
unfoldable pub ranges_loop : ℕ → ℕ → List ℕ → List GapRange
ranges_loop start previous [] = record { start = start; end = previous } ∷ []
ranges_loop start previous (position ∷ positions) =
    let closed =
      record { start = start; end = previous } ∷ ranges_loop position position positions in
    let longer = ranges_loop start position positions in
    if position == suc previous then longer else closed

unfoldable pub ranges_of : List ℕ → List GapRange
unfolding ranges_loop
ranges_of [] = []
ranges_of (position ∷ positions) = ranges_loop position position positions

unfoldable pub missing_ranges : List Bool → List GapRange
unfolding flatnonzero ranges_of
missing_ranges mask = ranges_of (flatnonzero 0 mask)

-- `eligible.iloc[start : end + 1] = True`, for a mask whose first position is `i`
unfoldable pub set_range : ℕ → ℕ → ℕ → List Bool → List Bool
set_range i start end [] = []
set_range i start end (b ∷ mask) =
    (leb start i && leb i end || b) ∷ set_range (suc i) start end mask

unfoldable pub mark_gap_if_eligible : List Bool → ℕ → ℕ → ℕ → List Bool
unfolding set_range
mark_gap_if_eligible eligible start end max_gap_periods =
    if leb (end + 1 - start) max_gap_periods then set_range 0 start end eligible else eligible

unfoldable pub eligible_loop : List Bool → ℕ → ℕ → List ℕ → ℕ → List Bool
unfolding mark_gap_if_eligible
eligible_loop eligible start previous [] max_gap_periods =
    mark_gap_if_eligible eligible start previous max_gap_periods
eligible_loop eligible start previous (position ∷ positions) max_gap_periods =
    let closed =
      eligible_loop (mark_gap_if_eligible eligible start previous max_gap_periods) position position
        positions max_gap_periods in
    let longer = eligible_loop eligible start position positions max_gap_periods in
    if position == suc previous then longer else closed

unfoldable pub eligible_of : List Bool → List ℕ → ℕ → List Bool
unfolding eligible_loop
eligible_of eligible [] max_gap_periods = eligible
eligible_of eligible (position ∷ positions) max_gap_periods =
    eligible_loop eligible position position positions max_gap_periods

unfoldable pub eligible_missing_mask : List Bool → ℕ → List Bool
unfolding flatnonzero eligible_of
eligible_missing_mask mask max_gap_periods =
    if leb max_gap_periods 0
    then map (λ _. false) mask
    else eligible_of (map (λ _. false) mask) (flatnonzero 0 mask) max_gap_periods
