-- ===== src/Gapfill/Donor.antt =====
-- The search for a donor of scripts/lib/gapfiller/core.py: `_timedelta_to_steps`,
-- `_candidate_periods`, `_donor_start_candidates`, `_is_valid_donor_start`, `_best_donor_candidate`
-- and `_donor_match_candidate`. A time difference is a number of nanoseconds, of which the
-- negative ones act as 0, and its quotient is rounded exactly. A value is `none` for NaN. The score
-- of a donor, its two comparisons and the refinement of a segment, which compute with floating
-- point, are arguments.
pub mod Laws
use open_energy_data_server.Common.{
  ℕ, zero, suc, ◌+◌, ◌-◌, ◌*◌, ◌/◌, ◌%◌, min, max, Bool, true, false, not, ◌&&◌, ◌||◌, Option, none,
  some, List, [], ◌∷◌, ◌++◌, map, length, ◌==◌, ltb, leb, if◌then◌else◌,
}
use open_energy_data_server.Gapfill.Ranges.{
  GapRange, gap_length, missing_ranges, eligible_missing_mask,
}

-- `int(round(delta / frequency))`: a half is rounded to the even neighbour
unfoldable pub round_quotient : ℕ → ℕ → ℕ
round_quotient delta frequency =
    let q = delta / frequency in
    let r = 2 * (delta % frequency) in
    if ltb r frequency
    then q
    else if ltb frequency r
    then q + 1
    else if q % 2 == 0
    then q
    else q + 1

unfoldable pub timedelta_to_steps : ℕ → ℕ → Option ℕ
unfolding round_quotient
timedelta_to_steps delta frequency =
    let steps = round_quotient delta frequency in
    if leb delta 0 || leb frequency 0 then none else if ltb 0 steps then some steps else none

-- `x in xs`
unfoldable pub member : ℕ → List ℕ → Bool
member x [] = false
member x (y ∷ ys) = y == x || member x ys

unfoldable pub add_period : ℕ → List ℕ → Option ℕ → List ℕ
unfolding member
add_period frequency periods none = periods
add_period frequency periods (some steps) =
    if member (steps * frequency) periods then periods else periods ++ steps * frequency ∷ []

-- the loop over `raw_periods`
unfoldable pub normalised_periods : ℕ → List ℕ → List ℕ → List ℕ
unfolding add_period timedelta_to_steps
normalised_periods frequency periods [] = periods
normalised_periods frequency periods (period ∷ raw_periods) =
    normalised_periods frequency
      (add_period frequency periods (timedelta_to_steps period frequency)) raw_periods

-- `config.candidate_periods or (config.period, pd.Timedelta(days=1), pd.Timedelta(days=7))`
unfoldable pub raw_periods_of : Option (List ℕ) → ℕ → List ℕ
raw_periods_of (some (period ∷ periods)) _ = period ∷ periods
raw_periods_of _ period = period ∷ 86400000000000 ∷ 604800000000000 ∷ []

unfoldable pub or_frequency : ℕ → List ℕ → List ℕ
or_frequency frequency [] = frequency ∷ []
or_frequency frequency (period ∷ periods) = period ∷ periods

unfoldable pub candidate_periods : Option (List ℕ) → ℕ → ℕ → List ℕ
unfolding raw_periods_of normalised_periods or_frequency
candidate_periods configured period frequency =
    or_frequency frequency (normalised_periods frequency [] (raw_periods_of configured period))

-- `range(first, first + count)`
unfoldable pub range_from : ℕ → ℕ → List ℕ
range_from first zero = []
range_from first (suc count) = first ∷ range_from (suc first) count

-- what one multiple of a period adds to `starts`; a start before the series is dropped here
unfoldable pub offset_starts : ℕ → ℕ → List ℕ
offset_starts gap_start offset =
    let later = (gap_start + offset) ∷ [] in
    if leb offset gap_start then (gap_start - offset) ∷ later else later

-- the loop over the multiples, from `multiple` on
unfoldable pub multiple_starts : ℕ → ℕ → ℕ → ℕ → List ℕ
unfolding offset_starts
multiple_starts gap_start period_steps multiple zero = []
multiple_starts gap_start period_steps multiple (suc left) =
    offset_starts gap_start (multiple * period_steps)
    ++ multiple_starts gap_start period_steps (suc multiple) left

unfoldable pub step_starts : ℕ → ℕ → Option ℕ → List ℕ
unfolding multiple_starts
step_starts gap_start radius_steps none = []
step_starts gap_start radius_steps (some period_steps) =
    multiple_starts gap_start period_steps 1 (max 1 (radius_steps / period_steps))

unfoldable pub period_starts : ℕ → ℕ → ℕ → List ℕ → List ℕ
unfolding step_starts timedelta_to_steps
period_starts gap_start frequency radius_steps [] = []
period_starts gap_start frequency radius_steps (period ∷ periods) =
    step_starts gap_start radius_steps (timedelta_to_steps period frequency)
    ++ period_starts gap_start frequency radius_steps periods

-- `sorted(s for s in starts if 0 <= s <= last_start)` of a set
unfoldable pub sorted_members : List ℕ → List ℕ → List ℕ
unfolding member
sorted_members starts [] = []
sorted_members starts (s ∷ range) =
    let rest = sorted_members starts range in if member s starts then s ∷ rest else rest

-- `radius_steps`, and the length of the index where the radius gives none
unfoldable pub radius_or : ℕ → Option ℕ → ℕ
radius_or len none = len
radius_or len (some steps) = steps

-- `starts`: the positions within the radius, and those whole periods away
unfoldable pub donor_starts : ℕ → GapRange → ℕ → List ℕ → ℕ → List ℕ
unfolding range_from period_starts
donor_starts last_start gap frequency periods radius_steps =
    let start_min = gap.start - radius_steps in
    let start_max = min last_start (gap.start + radius_steps) in
    range_from start_min (start_max + 1 - start_min)
    ++ period_starts gap.start frequency radius_steps periods

unfoldable pub donor_start_candidates : ℕ → GapRange → ℕ → List ℕ → ℕ → List ℕ
unfolding gap_length donor_starts sorted_members radius_or timedelta_to_steps
donor_start_candidates len gap frequency periods search_radius =
    let last_start = len - gap_length gap in
    let starts =
      donor_starts last_start gap frequency periods
        (radius_or len (timedelta_to_steps search_radius frequency)) in
    if ltb len (gap_length gap) then [] else sorted_members starts (range_from 0 (last_start + 1))

-- `left & right` of two masks of one length
unfoldable pub both : List Bool → List Bool → List Bool
both [] right = []
both (l ∷ left) [] = []
both (l ∷ left) (r ∷ right) = (l && r) ∷ both left right

module _ {V : Type 0} where
  -- `series.isna()`
  unfoldable pub missing_mask : List (Option V) → List Bool
  missing_mask [] = []
  missing_mask (none ∷ values) = true ∷ missing_mask values
  missing_mask (some v ∷ values) = false ∷ missing_mask values

  -- `missing_mask & eligible_mask`
  unfoldable pub fillable_mask : List (Option V) → ℕ → List Bool
  unfolding missing_mask both eligible_missing_mask
  fillable_mask values max_gap_periods =
      both (missing_mask values) (eligible_missing_mask (missing_mask values) max_gap_periods)

  -- `values[first : first + count]`
  unfoldable pub slice : ℕ → ℕ → List (Option V) → List (Option V)
  slice first zero values = []
  slice first (suc count) [] = []
  slice zero (suc count) (v ∷ values) = v ∷ slice zero count values
  slice (suc first) (suc count) (v ∷ values) = slice first (suc count) values

  -- `not np.isnan(…).any()`
  unfoldable pub all_known : List (Option V) → Bool
  all_known [] = true
  all_known (none ∷ values) = false
  all_known (some v ∷ values) = all_known values

  unfoldable pub is_valid_donor_start : List (Option V) → GapRange → ℕ → ℕ → Bool
  unfolding gap_length slice all_known
  is_valid_donor_start values gap start context_points =
      let end = start + gap_length gap - 1 in
      let ctx_start = gap.start - context_points in
      let ctx_end = min (length values - 1) (gap.end + context_points) in
      ltb end (length values)
      && not (leb start gap.end && leb gap.start end)
      && not (leb start ctx_end && leb ctx_start end)
      && all_known (slice start (gap_length gap) values)

  -- `candidate.iloc[start : …] = segment`
  unfoldable pub assign : ℕ → List (Option V) → List (Option V) → List (Option V)
  assign start [] candidate = candidate
  assign start (v ∷ segment) [] = []
  assign zero (v ∷ segment) (w ∷ candidate) = v ∷ assign zero segment candidate
  assign (suc start) (v ∷ segment) (w ∷ candidate) = w ∷ assign start (v ∷ segment) candidate

-- `_DonorCandidate`, with its `best_distance`
pub record DonorCandidate (Score : Type 0) : Type 0 where
  pub start : ℕ
  pub score : Score
  pub distance : ℕ

-- `abs(gap.start - start)`
unfoldable pub distance_to : GapRange → ℕ → ℕ
distance_to gap start = (gap.start - start) + (start - gap.start)

module _ {Score : Type 0} (score_of : GapRange → ℕ → Score)
    (beats ties : Score → Score → Bool) where
  unfoldable pub candidate_at : GapRange → ℕ → DonorCandidate Score
  unfolding distance_to
  candidate_at gap start = record {
    start = start;
    score = score_of gap start;
    distance = distance_to gap start;
  }

  -- the best donor after one more: a better score, or as good a score and nearer
  unfoldable pub better_donor :
      Option (DonorCandidate Score) → DonorCandidate Score → DonorCandidate Score
  better_donor none new = new
  better_donor (some best) new =
      if beats new.score best.score
      then new
      else if ties new.score best.score && ltb new.distance best.distance
      then new
      else best

  module _ {V : Type 0} where
    -- the loop over `starts`
    unfoldable pub best_of :
        List (Option V)
        → GapRange
        → ℕ
        → List ℕ
        → Option (DonorCandidate Score)
        → Option (DonorCandidate Score)
    unfolding is_valid_donor_start better_donor candidate_at
    best_of values gap context_points [] best = best
    best_of values gap context_points (start ∷ starts) best =
        let skipped = best_of values gap context_points starts best in
        let scored =
          best_of values gap context_points starts
            (some (better_donor best (candidate_at gap start))) in
        if is_valid_donor_start values gap start context_points then scored else skipped

    unfoldable pub best_donor_candidate :
        List (Option V) → GapRange → ℕ → List ℕ → ℕ → ℕ → Option (DonorCandidate Score)
    unfolding best_of donor_start_candidates
    best_donor_candidate values gap frequency periods context_points search_radius =
        best_of values gap context_points
          (donor_start_candidates (length values) gap frequency periods search_radius) none

    module _ (refine_segment : GapRange → List (Option V) → List (Option V)) where
      -- the segment of a gap's donor
      unfoldable pub fill_gap :
          List (Option V)
          → GapRange
          → Option (DonorCandidate Score)
          → List (Option V)
          → List (Option V)
      unfolding gap_length slice assign
      fill_gap values gap none candidate = candidate
      fill_gap values gap (some donor) candidate =
          assign gap.start (refine_segment gap (slice donor.start (gap_length gap) values))
            candidate

      unfoldable pub fill_gaps :
          List (Option V) → ℕ → List ℕ → ℕ → ℕ → List GapRange → List (Option V) → List (Option V)
      unfolding fill_gap best_donor_candidate
      fill_gaps values frequency periods context_points search_radius [] candidate = candidate
      fill_gaps values frequency periods context_points search_radius (gap ∷ gaps) candidate =
          fill_gaps values frequency periods context_points search_radius gaps (
            fill_gap values gap
              (best_donor_candidate values gap frequency periods context_points search_radius)
              candidate)

      -- `_donor_match_candidate`, of a mask of what may be filled; `frequency` is `none` where none
      -- is configured and none can be inferred
      unfoldable pub match_gaps :
          List (Option V) → Option ℕ → Option (List ℕ) → ℕ → ℕ → ℕ → List Bool → List (Option V)
      unfolding fill_gaps candidate_periods missing_ranges
      match_gaps values none configured period context_periods search_radius fillable =
          map (λ v. none) values
      match_gaps values (some frequency) configured period context_periods search_radius fillable =
          fill_gaps values frequency (candidate_periods configured period frequency)
            (max 1 context_periods) search_radius (missing_ranges fillable) (map (λ v. none) values)

      unfoldable pub donor_match_candidate :
          List (Option V) → Option ℕ → Option (List ℕ) → ℕ → ℕ → ℕ → ℕ → List (Option V)
      unfolding match_gaps fillable_mask
      donor_match_candidate values frequency configured period context_periods search_radius
            max_gap_periods =
          match_gaps values frequency configured period context_periods search_radius
            (fillable_mask values max_gap_periods)
