-- ===== src/Gapfill/Tests.antt =====
-- The theorems on gaps at a concrete mask, and runs of the code.
use open_energy_data_server.Common.{◌≡◌, refl, Bool, true, false, List, [], ◌∷◌, arith}
use open_energy_data_server.Gapfill.Ranges.{missing_ranges, eligible_missing_mask}
use open_energy_data_server.Gapfill.Ranges.Runs.{at}
use open_energy_data_server.Gapfill.Ranges.Eligible.{covered_short, at-eligible_missing_mask}

-- a gap of one position and one of three
abbrev gaps : List Bool
gaps = false ∷ true ∷ false ∷ true ∷ true ∷ true ∷ []

gaps_ranges :
    missing_ranges gaps ≡ record { start = 1; end = 1 } ∷ record { start = 3; end = 5 } ∷ []
unfolding missing_ranges
gaps_ranges = refl

gaps_eligible : eligible_missing_mask gaps 2 ≡ false ∷ true ∷ false ∷ false ∷ false ∷ false ∷ []
unfolding eligible_missing_mask
gaps_eligible = refl

at-eligible_missing_mask_example :
    at (eligible_missing_mask gaps 2) 1 ≡ covered_short 1 2 (missing_ranges gaps)
at-eligible_missing_mask_example = at-eligible_missing_mask gaps 2 1 (omega arith)
