-- ===== src/Gapfill/Ranges/Runs.antt =====
-- `_missing_ranges` returns exactly the maximal runs of a mask.
use open_energy_data_server.Common.{
  ℕ, zero, suc, ◌+◌, ◌≤◌, ◌<◌, ◌≡◌, refl, ◌∙◌, Bool, true, false, ◌&&◌, ◌||◌, List, [], ◌∷◌, ◌==◌,
  leb, arith, inl, inr, Bool-cases,
}
use open_energy_data_server.Gapfill.Ranges.{
  GapRange, flatnonzero, ranges_loop, ranges_of, missing_ranges,
}

-- the test at a position; `false` behind the end
unfoldable pub at : List Bool → ℕ → Bool
at [] i = false
at (b ∷ mask) zero = b
at (b ∷ mask) (suc i) = at mask i

unfoldable pub within : ℕ → GapRange → Bool
within i r = leb r.start i && leb i r.end

unfoldable pub covered : ℕ → List GapRange → Bool
unfolding within
covered i [] = false
covered i (r ∷ ranges) = within i r || covered i ranges

unfoldable pub listed : ℕ → List ℕ → Bool
listed i [] = false
listed i (x ∷ xs) = x == i || listed i xs

-- Positions rise strictly from a bound on.
abbrev pub Above : ℕ → List ℕ → Type 0
Above n [] = Unit {0}
Above n (x ∷ xs) = (n ≤ x) × Above (suc x) xs

pub flatnonzero-Above : (i : ℕ) (mask : List Bool) → Above i (flatnonzero i mask)
unfolding flatnonzero
flatnonzero-Above i [] = tt
flatnonzero-Above i (true ∷ mask) = (omega arith, flatnonzero-Above (suc i) mask)
flatnonzero-Above i (false ∷ mask) =
    Above-weaken (flatnonzero (suc i) mask) (flatnonzero-Above (suc i) mask)
  where
    Above-weaken : (xs : List ℕ) → Above (suc i) xs → Above i xs
    Above-weaken [] h = tt
    Above-weaken (x ∷ xs) h = (omega arith, h.1)

listed_below : (i n : ℕ) (xs : List ℕ) → Above n xs → i < n → listed i xs ≡ false
unfolding listed
listed_below i n [] h lt = refl
listed_below i n (x ∷ xs) h lt = ground (arith, listed_below i (suc x) xs h.1)

pub listed-flatnonzero :
    (i n : ℕ) (mask : List Bool) → listed (n + i) (flatnonzero n mask) ≡ at mask i
unfolding listed flatnonzero at
listed-flatnonzero i n [] = refl
listed-flatnonzero zero n (true ∷ mask) = ground arith
listed-flatnonzero zero n (false ∷ mask) =
    listed_below (n + 0) (suc n) (flatnonzero (suc n) mask) (flatnonzero-Above (suc n) mask)
      (omega arith)
listed-flatnonzero (suc i) n (b ∷ mask) =
    let e : n + suc i ≡ suc n + i = omega arith in
    rw e (ground (arith, listed-flatnonzero i (suc n) mask))

covered-ranges_loop :
    (i start previous : ℕ) (positions : List ℕ)
    → start ≤ previous
    → Above (suc previous) positions
    → covered i (ranges_loop start previous positions)
      ≡ ((leb start i && leb i previous) || listed i positions)
unfolding covered ranges_loop listed
covered-ranges_loop i start previous [] h a = refl
covered-ranges_loop i start previous (x ∷ xs) h a =
    ground (arith, covered-ranges_loop i start x xs, covered-ranges_loop i x x xs)

covered-ranges_of :
    (i : ℕ) (positions : List ℕ)
    → Above 0 positions
    → covered i (ranges_of positions) ≡ listed i positions
unfolding ranges_of covered listed
covered-ranges_of i [] a = refl
covered-ranges_of i (x ∷ xs) a = covered-ranges_loop i x x xs (omega arith) a.1 ∙ ground arith

-- A position is missing exactly if some range covers it.
pub covered-missing_ranges :
    (i : ℕ) (mask : List Bool) → covered i (missing_ranges mask) ≡ at mask i
unfolding missing_ranges
covered-missing_ranges i mask =
    covered-ranges_of i (flatnonzero 0 mask) (flatnonzero-Above 0 mask)
    ∙ (let e : 0 + i ≡ i = omega arith in rw e at (listed-flatnonzero i 0 mask))

-- Ranges that are not empty, in order, with a position between one and the next.
abbrev pub Separated : ℕ → List GapRange → Type 0
Separated n [] = Unit {0}
Separated n (r ∷ ranges) = (n ≤ r.start) × (r.start ≤ r.end) × Separated (r.end + 2) ranges

ranges_loop-Separated :
    (n start previous : ℕ) (positions : List ℕ)
    → n ≤ start
    → start ≤ previous
    → Above (suc previous) positions
    → Separated n (ranges_loop start previous positions)
unfolding ranges_loop
ranges_loop-Separated n start previous [] b h a = (b, h, tt)
ranges_loop-Separated n start previous (x ∷ xs) b h a = elim (Bool-cases (x == suc previous)) [
  | inl e ↦ rw e (ranges_loop-Separated n start x xs b (omega arith) a.1)
  | inr e ↦
      rw e (b, h, ranges_loop-Separated (previous + 2) x x xs (ground arith) (omega arith) a.1)
]

-- The ranges are the maximal runs: none is empty, they are in order, and two neighbours have a
-- position between them that is not missing.
pub missing_ranges-Separated : (mask : List Bool) → Separated 0 (missing_ranges mask)
unfolding missing_ranges
missing_ranges-Separated mask = by_positions (flatnonzero 0 mask) (flatnonzero-Above 0 mask)
  where
    by_positions : (xs : List ℕ) → Above 0 xs → Separated 0 (ranges_of xs)
    by_positions [] a = unfold ranges_of in tt
    by_positions (x ∷ xs) a =
        unfold ranges_of in ranges_loop-Separated 0 x x xs (omega arith) (omega arith) a.1
