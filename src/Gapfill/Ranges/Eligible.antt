-- ===== src/Gapfill/Ranges/Eligible.antt =====
-- `_eligible_missing_mask` marks exactly the positions of the runs that are short enough.
use open_energy_data_server.Common.{
  ℕ, zero, suc, ◌+◌, ◌-◌, ◌<◌, ◌≡◌, refl, sym, leb→le, ◌∙◌, Bool, true, false, ◌&&◌, ◌||◌, List, [],
  ◌∷◌, map, ◌==◌, leb, arith, inl, inr, Bool-cases, length,
}
use open_energy_data_server.Gapfill.Ranges.{
  GapRange, gap_length, flatnonzero, ranges_loop, ranges_of, missing_ranges, set_range,
  mark_gap_if_eligible, eligible_loop, eligible_of, eligible_missing_mask,
}
use open_energy_data_server.Gapfill.Ranges.Runs.{
  at, within, covered, covered-missing_ranges, missing_ranges-Separated, Separated,
}

-- some range that covers the position has at most so many periods
unfoldable pub covered_short : ℕ → ℕ → List GapRange → Bool
unfolding within gap_length
covered_short i max_gap_periods [] = false
covered_short i max_gap_periods (r ∷ ranges) =
    (within i r && leb (gap_length r) max_gap_periods) || covered_short i max_gap_periods ranges

length-set_range : (i start end : ℕ) (m : List Bool) → length (set_range i start end m) ≡ length m
unfolding set_range
length-set_range i start end [] = refl
length-set_range i start end (b ∷ m) = omega (arith, length-set_range (suc i) start end m)

at-set_range :
    (n i start end : ℕ) (m : List Bool)
    → i < length m
    → at (set_range n start end m) i ≡ ((leb start (n + i) && leb (n + i) end) || at m i)
unfolding set_range at
at-set_range n i start end [] h = absurd (omega arith)
at-set_range n zero start end (b ∷ m) h = let e : n + 0 ≡ n = omega arith in rw e refl
at-set_range n (suc i) start end (b ∷ m) h =
    let e : n + suc i ≡ suc n + i = omega arith in
    rw e (at-set_range (suc n) i start end m (omega arith))

length-mark :
    (m : List Bool) (start end max : ℕ) → length (mark_gap_if_eligible m start end max) ≡ length m
unfolding mark_gap_if_eligible
length-mark m start end max = ground (arith, length-set_range 0 start end m)

at-mark :
    (m : List Bool) (start end max i : ℕ)
    → i < length m
    → at (mark_gap_if_eligible m start end max) i
      ≡ ((leb start i && leb i end && leb (end + 1 - start) max) || at m i)
unfolding mark_gap_if_eligible
at-mark m start end max i h =
    let e : 0 + i ≡ i = omega arith in ground (arith, rw e at (at-set_range 0 i start end m h))

length-eligible_loop :
    (positions : List ℕ) (m : List Bool) (start previous max : ℕ)
    → length (eligible_loop m start previous positions max) ≡ length m
unfolding eligible_loop
length-eligible_loop [] m start previous max = length-mark m start previous max
length-eligible_loop (x ∷ xs) m start previous max = ground (
  arith,
  length-eligible_loop xs m start x max,
  length-eligible_loop xs (mark_gap_if_eligible m start previous max) x x max,
  length-mark m start previous max,
)

at-eligible_loop :
    (positions : List ℕ) (m : List Bool) (start previous max i : ℕ)
    → i < length m
    → at (eligible_loop m start previous positions max) i
      ≡ (covered_short i max (ranges_loop start previous positions) || at m i)
unfolding eligible_loop ranges_loop covered_short within gap_length
at-eligible_loop [] m start previous max i h = at-mark m start previous max i h ∙ ground arith
at-eligible_loop (x ∷ xs) m start previous max i h = elim (Bool-cases (x == suc previous)) [
  | inl e ↦ rw e (at-eligible_loop xs m start x max i h)
  | inr e ↦ rw e (
      at-eligible_loop xs (mark_gap_if_eligible m start previous max) x x max i
        (rw (length-mark m start previous max) h)
      ∙ ground (arith, at-mark m start previous max i h))
]

at-none : (mask : List Bool) (i : ℕ) → at (map (λ (_ : Bool). false) mask) i ≡ false
unfolding at
at-none [] i = refl
at-none (b ∷ mask) zero = refl
at-none (b ∷ mask) (suc i) = at-none mask i

length-none : (mask : List Bool) → length (map (λ (_ : Bool). false) mask) ≡ length mask
length-none [] = refl
length-none (b ∷ mask) = omega (arith, length-none mask)

covered_short_zero :
    (n i : ℕ) (ranges : List GapRange) → Separated n ranges → covered_short i 0 ranges ≡ false
unfolding covered_short
covered_short_zero n i [] s = refl
covered_short_zero n i (r ∷ ranges) s = ground (arith, covered_short_zero (r.end + 2) i ranges s.2)

-- A position of the mask is eligible exactly if it lies in a maximal run of missing positions that
-- has at most `max_gap_periods` of them.
pub at-eligible_missing_mask :
    (mask : List Bool) (max_gap_periods i : ℕ)
    → i < length mask
    → at (eligible_missing_mask mask max_gap_periods) i
      ≡ covered_short i max_gap_periods (missing_ranges mask)
unfolding eligible_missing_mask missing_ranges
at-eligible_missing_mask mask max_gap_periods i h = elim (Bool-cases (leb max_gap_periods 0)) [
  | inl e ↦
      let z : max_gap_periods ≡ 0 = omega (arith, leb→le max_gap_periods 0 e) in
      rw e (
        at-none mask i
        ∙ sym (rw z (covered_short_zero 0 i (missing_ranges mask) (missing_ranges-Separated mask))))
  | inr e ↦ rw e (by_positions (flatnonzero 0 mask))
]
  where
    by_positions :
        (xs : List ℕ)
        → at (eligible_of (map (λ _. false) mask) xs max_gap_periods) i
          ≡ covered_short i max_gap_periods (ranges_of xs)
    by_positions [] = unfold eligible_of ranges_of covered_short in at-none mask i
    by_positions (x ∷ xs) =
        unfold eligible_of ranges_of in
        at-eligible_loop xs (map (λ _. false) mask) x x max_gap_periods i (rw (length-none mask) h)
        ∙ ground (arith, at-none mask i)

pub length-eligible_missing_mask :
    (mask : List Bool) (max_gap_periods : ℕ)
    → length (eligible_missing_mask mask max_gap_periods) ≡ length mask
unfolding eligible_missing_mask
length-eligible_missing_mask mask max_gap_periods = elim (Bool-cases (leb max_gap_periods 0)) [
  | inl e ↦ rw e (length-none mask)
  | inr e ↦ rw e (by_positions (flatnonzero 0 mask))
]
  where
    by_positions :
        (xs : List ℕ)
        → length (eligible_of (map (λ _. false) mask) xs max_gap_periods) ≡ length mask
    by_positions [] = unfold eligible_of in length-none mask
    by_positions (x ∷ xs) =
        unfold eligible_of in
        length-eligible_loop xs (map (λ _. false) mask) x x max_gap_periods ∙ length-none mask

covered_of_short :
    (i max : ℕ) (ranges : List GapRange)
    → covered_short i max ranges ≡ true
    → covered i ranges ≡ true
unfolding covered_short covered
covered_of_short i max [] h = h
covered_of_short i max (r ∷ ranges) h = ground (arith, covered_of_short i max ranges)

-- Only missing positions are eligible.
pub eligible-missing :
    (mask : List Bool) (max_gap_periods i : ℕ)
    → i < length mask
    → at (eligible_missing_mask mask max_gap_periods) i ≡ true
    → at mask i ≡ true
eligible-missing mask max_gap_periods i h e =
    sym (covered-missing_ranges i mask)
    ∙ covered_of_short i max_gap_periods (missing_ranges mask)
        (sym (at-eligible_missing_mask mask max_gap_periods i h) ∙ e)
