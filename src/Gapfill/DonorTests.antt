-- ===== src/Gapfill/DonorTests.antt =====
-- The search for a donor in a concrete series.
use open_energy_data_server.Common.{
  ℕ, ◌+◌, ◌-◌, ◌<◌, ◌≡◌, refl, true, ◌⊎◌, Option, none, some, List, [], ◌∷◌, ◌==◌, ltb, length, min,
}
use open_energy_data_server.Gapfill.Ranges.{
  GapRange, gap_length, flatnonzero, ranges_loop, ranges_of, missing_ranges, set_range,
  mark_gap_if_eligible, eligible_loop, eligible_of, eligible_missing_mask,
}
use open_energy_data_server.Gapfill.Donor.{
  round_quotient, timedelta_to_steps, member, add_period, normalised_periods, raw_periods_of,
  or_frequency, candidate_periods, range_from, offset_starts, multiple_starts, step_starts,
  period_starts, donor_starts, sorted_members, radius_or, donor_start_candidates, missing_mask,
  both, fillable_mask, slice, all_known, is_valid_donor_start, DonorCandidate, distance_to,
  candidate_at, better_donor, best_of, best_donor_candidate, assign, fill_gap, fill_gaps,
  match_gaps, donor_match_candidate,
}
use open_energy_data_server.Gapfill.Donor.Laws.{best_donor_candidate-valid}

abbrev series : List (Option ℕ)
series = some 1 ∷ some 2 ∷ none ∷ some 4 ∷ some 5 ∷ some 6 ∷ some 7 ∷ []

abbrev gap : GapRange
gap = record { start = 2; end = 2 }

-- every donor is as good, so that the nearest one wins
abbrev score_of : GapRange → ℕ → ℕ
score_of g start = 1

abbrev donor : DonorCandidate ℕ
donor = record { start = 0; score = 1; distance = 2 }

best_donor_candidate-valid_example :
    (0 + gap_length gap - 1 < length series)
    × ((0 + gap_length gap - 1 < 2) ⊎ (2 < 0))
    × ((0 + gap_length gap - 1 < 2 - 1) ⊎ (min (length series - 1) (2 + 1) < 0))
    × (all_known (slice 0 (gap_length gap) series) ≡ true)
unfolding best_donor_candidate best_of donor_start_candidates donor_starts sorted_members member
    range_from radius_or timedelta_to_steps round_quotient period_starts step_starts multiple_starts
    offset_starts is_valid_donor_start slice all_known better_donor candidate_at distance_to
    gap_length
best_donor_candidate-valid_example =
    best_donor_candidate-valid score_of (λ a b. ltb b a) ◌==◌ series gap 1 1 (3 ∷ []) 2 donor refl

-- the gap is filled from the donor, and nothing else is
matched :
    donor_match_candidate score_of
      (λ a b. ltb b a)
      ◌==◌
      (λ g segment. segment)
      series
      (some 1)
      (some (3 ∷ []))
      1
      1
      2
      24
    ≡ none ∷ none ∷ some 1 ∷ none ∷ none ∷ none ∷ none ∷ []
unfolding best_donor_candidate best_of donor_start_candidates donor_starts sorted_members member
    range_from radius_or timedelta_to_steps round_quotient period_starts step_starts multiple_starts
    offset_starts is_valid_donor_start slice all_known better_donor candidate_at distance_to
    gap_length donor_match_candidate match_gaps fill_gaps fill_gap assign fillable_mask both
    missing_mask eligible_missing_mask eligible_of eligible_loop mark_gap_if_eligible set_range
    flatnonzero missing_ranges ranges_of ranges_loop candidate_periods or_frequency
    normalised_periods add_period raw_periods_of
matched = refl
