-- ===== src/Gapfill/Donor/Laws.antt =====
-- Where the search for a donor looks, and what it finds.
use open_energy_data_server.Common.{
  ℕ, zero, suc, ◌+◌, ◌-◌, min, ◌≤◌, ◌<◌, ◌≡◌, refl, Bool, true, false, ◌&&◌, ◌⊎◌, Option, none,
  some, List, [], ◌∷◌, length, arith, inl, inr, subst, Bool-cases, ltb,
}
use open_energy_data_server.Gapfill.Ranges.{GapRange, gap_length}
use open_energy_data_server.Gapfill.Donor.{
  member, range_from, sorted_members, donor_starts, radius_or, timedelta_to_steps,
  donor_start_candidates, slice, all_known, is_valid_donor_start, DonorCandidate, better_donor,
  candidate_at, distance_to, best_of, best_donor_candidate,
}

-- Strictly ascending numbers of at least `low` and below `high`.
pub data Ascending : ℕ → ℕ → List ℕ → Type 0 where
  done : {low high : ℕ} → Ascending low high []
  step :
      {low high s : ℕ} {rest : List ℕ}
      → low ≤ s
      → s < high
      → Ascending (suc s) high rest
      → Ascending low high (s ∷ rest)

weaken :
    (low low' high : ℕ) (xs : List ℕ) → low ≤ low' → Ascending low' high xs → Ascending low high xs
weaken low low' high [] le a = done
weaken low low' high (s ∷ rest) le (step h k more) = step (ground arith) k more

sorted-Ascending :
    (starts : List ℕ) (first count last : ℕ)
    → first + count ≡ last
    → Ascending first last (sorted_members starts (range_from first count))
unfolding sorted_members range_from
sorted-Ascending starts first zero last e = done
sorted-Ascending starts first (suc count) last e =
    by_member (sorted-Ascending starts (suc first) count last (omega arith))
  where
    by_member :
        Ascending (suc first) last (sorted_members starts (range_from (suc first) count))
        → Ascending first last (sorted_members starts (range_from first (suc count)))
    by_member again = elim (Bool-cases (member first starts)) [
      | inl q ↦ rw q (step (omega arith) (omega arith) again)
      | inr q ↦ rw q (weaken first (suc first) last _ (omega arith) again)
    ]

-- The starts that are tried are distinct and ascending, and from each of them as many positions as
-- the gap has fit into the series.
pub donor_start_candidates-Ascending :
    (len : ℕ) (gap : GapRange) (frequency : ℕ) (periods : List ℕ) (search_radius : ℕ)
    → Ascending 0
        (len + 1 - gap_length gap)
        (donor_start_candidates len gap frequency periods search_radius)
unfolding donor_start_candidates
donor_start_candidates-Ascending len gap frequency periods search_radius =
    elim (Bool-cases (ltb len (gap_length gap))) [
      | inl e ↦ rw e done
      | inr e ↦ rw e (
          sorted-Ascending starts 0 (len - gap_length gap + 1) (len + 1 - gap_length gap)
            (ground (arith, e)))
    ]
  where
    starts : List ℕ
    starts =
        donor_starts (len - gap_length gap) gap frequency periods
          (radius_or len (timedelta_to_steps search_radius frequency))

valid_start :
    {V : Type 0} (values : List (Option V)) (gap : GapRange) (start context_points : ℕ)
    → is_valid_donor_start values gap start context_points ≡ true
    → (start + gap_length gap - 1 < length values)
      × ((start + gap_length gap - 1 < gap.start) ⊎ (gap.end < start))
      × ((start + gap_length gap - 1 < gap.start - context_points)
          ⊎ (min (length values - 1) (gap.end + context_points) < start))
      × (all_known (slice start (gap_length gap) values) ≡ true)
unfolding is_valid_donor_start
valid_start values gap start context_points h =
    (ground arith, ground arith, ground arith, ground arith)

module _ {Score V : Type 0} (score_of : GapRange → ℕ → Score) (beats ties : Score → Score → Bool)
    (values : List (Option V)) (gap : GapRange) (context_points : ℕ) where
  -- none, or a donor at a valid start
  abbrev AtValidStart : Option (DonorCandidate Score) → Type 0
  AtValidStart none = Unit {0}
  AtValidStart (some donor) = is_valid_donor_start values gap donor.start context_points ≡ true

  better-valid :
      (best : Option (DonorCandidate Score)) (start : ℕ)
      → AtValidStart best
      → is_valid_donor_start values gap start context_points ≡ true
      → AtValidStart (
          some (better_donor score_of beats ties best (candidate_at score_of beats ties gap start)))
  unfolding better_donor candidate_at
  better-valid none start h v = v
  better-valid (some best) start h v = by_score (beats (score_of gap start) best.score) refl
    where
      by_score :
          (b : Bool)
          → beats (score_of gap start) best.score ≡ b
          → AtValidStart (
              some (
                better_donor score_of beats ties
                  (some best)
                  (candidate_at score_of beats ties gap start)))
      by_score true e = rw e v
      by_score false e =
          elim (Bool-cases
            (ties (score_of gap start) best.score && ltb (distance_to gap start) best.distance)) [
              | inl q ↦ rw (e, q) v
              | inr q ↦ rw (e, q) h
            ]

  best_of-valid :
      (starts : List ℕ) (best : Option (DonorCandidate Score))
      → AtValidStart best
      → AtValidStart (best_of score_of beats ties values gap context_points starts best)
  unfolding best_of
  best_of-valid [] best h = h
  best_of-valid (start ∷ starts) best h =
      elim (Bool-cases (is_valid_donor_start values gap start context_points)) [
        | inl e ↦ rw e (best_of-valid starts _ (better-valid best start h e))
        | inr e ↦ rw e (best_of-valid starts best h)
      ]

  -- The donor that is found lies inside the series, overlaps neither the gap nor the context around
  -- it, and has no missing value.
  pub best_donor_candidate-valid :
      (frequency : ℕ) (periods : List ℕ) (search_radius : ℕ) (donor : DonorCandidate Score)
      → best_donor_candidate score_of beats ties values gap frequency periods context_points
          search_radius
        ≡ some donor
      → (donor.start + gap_length gap - 1 < length values)
        × ((donor.start + gap_length gap - 1 < gap.start) ⊎ (gap.end < donor.start))
        × ((donor.start + gap_length gap - 1 < gap.start - context_points)
            ⊎ (min (length values - 1) (gap.end + context_points) < donor.start))
        × (all_known (slice donor.start (gap_length gap) values) ≡ true)
  unfolding best_donor_candidate
  best_donor_candidate-valid frequency periods search_radius donor e =
      valid_start values gap donor.start context_points (
        subst AtValidStart e (
          best_of-valid (donor_start_candidates (length values) gap frequency periods search_radius)
            none tt))
