-- ===== src/Gapfill/Window/Laws.antt =====
-- What a window covers, and what replacing a window does.
use open_energy_data_server.Common.{
  ℕ, ◌≤◌, ◌≡◌, refl, sym, subst, Bool, true, ◌&&◌, Option, none, some, List, [], ◌∷◌, leb, All,
  arith, inl, inr, Bool-cases, Option-cases,
}
use open_energy_data_server.Gapfill.Tables.{TrackingState, WindowInfo, Row}
use open_energy_data_server.Gapfill.Window.{
  is_changed, changed, lower, higher, min_time, max_time, window_of, get_processing_window,
  in_window, read_source_window,
}

-- The row has a time between the bounds.
abbrev pub Within : ℕ → ℕ → Row → Type 0
Within start end row = in_window start end row ≡ true

below : ℕ → Option ℕ → Bool
below a none = true
below a (some t) = leb a t

above : ℕ → Option ℕ → Bool
above b none = true
above b (some t) = leb t b

below-lower : (a : ℕ) (x y : Option ℕ) → below a (lower x y) ≡ below a x && below a y
unfolding below lower
below-lower a none y = refl
below-lower a (some t) none = ground arith
below-lower a (some t) (some u) = ground arith

above-higher : (b : ℕ) (x y : Option ℕ) → above b (higher x y) ≡ above b x && above b y
unfolding above higher
above-higher b none y = refl
above-higher b (some t) none = ground arith
above-higher b (some t) (some u) = ground arith

below-min_time :
    (a : ℕ) (rows : List Row)
    → below a (min_time rows) ≡ true
    → All (λ row. below a row.time ≡ true) rows
unfolding min_time
below-min_time a [] e = tt
below-min_time a (row ∷ rows) e = (
  ground (arith, below-lower a row.time (min_time rows)),
  below-min_time a rows (ground (arith, below-lower a row.time (min_time rows))),
)

above-max_time :
    (b : ℕ) (rows : List Row)
    → above b (max_time rows) ≡ true
    → All (λ row. above b row.time ≡ true) rows
unfolding max_time
above-max_time b [] e = tt
above-max_time b (row ∷ rows) e = (
  ground (arith, above-higher b row.time (max_time rows)),
  above-max_time b rows (ground (arith, above-higher b row.time (max_time rows))),
)

-- A changed row has a time.
is_changed-timed :
    (u : Bool) (tracking : TrackingState) (start end : Option ℕ) (row : Row)
    → is_changed u tracking start end row ≡ true
    → (t : ℕ) × (row.time ≡ some t)
unfolding is_changed
is_changed-timed u tracking start end row e = elim (Option-cases row.time) [
  | inl q ↦ absurd (ground arith)
  | inr found ↦ found
]

in_window-bounds :
    (a b c : ℕ) (row : Row) (t : ℕ)
    → row.time ≡ some t
    → c ≤ a
    → below a row.time ≡ true
    → above b row.time ≡ true
    → in_window c b row ≡ true
unfolding in_window below above
in_window-bounds a b c row t q le h k = ground arith

changed-Within :
    (u : Bool) (tracking : TrackingState) (start end : Option ℕ) (rows : List Row) (a b c : ℕ)
    → c ≤ a
    → All (λ row. below a row.time ≡ true) (changed u tracking start end rows)
    → All (λ row. above b row.time ≡ true) (changed u tracking start end rows)
    → All (Within c b) (changed u tracking start end rows)
unfolding changed
changed-Within u tracking start end [] a b c le h k = tt
changed-Within u tracking start end (row ∷ rows) a b c le h k =
    elim (Bool-cases (is_changed u tracking start end row)) [
      | inl e ↦ kept (changed-Within u tracking start end rows a b c le) e (ground arith)
      | inr e ↦ dropped (changed-Within u tracking start end rows a b c le) (ground arith)
    ]
  where
    rest : List Row
    rest = changed u tracking start end rows

    all : List Row
    all = changed u tracking start end (row ∷ rows)

    Again : Type 0
    Again =
        All (λ r. below a r.time ≡ true) rest
        → All (λ r. above b r.time ≡ true) rest
        → All (Within c b) rest

    kept :
        Again → is_changed u tracking start end row ≡ true → all ≡ row ∷ rest → All (Within c b) all
    kept again e same =
        let (t, q) = is_changed-timed u tracking start end row e in
        let low = subst (All (λ r. below a r.time ≡ true)) same h in
        let high = subst (All (λ r. above b r.time ≡ true)) same k in
        subst (All (Within c b)) (sym same)
          (in_window-bounds a b c row t q le low.0 high.0, again low.1 high.1)

    dropped : Again → all ≡ rest → All (Within c b) all
    dropped again same = subst (All (Within c b)) (sym same) (
        again (subst (All (λ r. below a r.time ≡ true)) same h)
          (subst (All (λ r. above b r.time ≡ true)) same k))

-- Reading a window that every changed row lies in loses none of them.
changed-read_source_window :
    (u : Bool) (tracking : TrackingState) (start end : Option ℕ) (a b : ℕ) (rows : List Row)
    → All (Within a b) (changed u tracking start end rows)
    → changed u tracking start end (read_source_window a b rows) ≡ changed u tracking start end rows
unfolding changed read_source_window
changed-read_source_window u tracking start end a b [] h = refl
changed-read_source_window u tracking start end a b (row ∷ rows) h =
    elim (Bool-cases (is_changed u tracking start end row)) [
      | inl e ↦
          let same : changed u tracking start end (row ∷ rows) ≡ row ∷ rest = ground arith in
          let within = subst (All (Within a b)) same h in
          ground
            (arith, within.0, changed-read_source_window u tracking start end a b rows within.1)
      | inr e ↦
          let same : changed u tracking start end (row ∷ rows) ≡ rest = ground arith in
          ground (
            arith,
            changed-read_source_window u tracking start end a b rows
                (subst (All (Within a b)) same h),
          )
    ]
  where
    rest : List Row
    rest = changed u tracking start end rows

window-Within :
    (u : Bool) (lookback : ℕ) (tracking : TrackingState) (start end : Option ℕ) (rows : List Row)
    (w : WindowInfo)
    → get_processing_window u lookback tracking start end rows ≡ some w
    → All (Within w.read_start w.read_end) (changed u tracking start end rows)
unfolding get_processing_window window_of below above
window-Within u lookback tracking start end rows w e =
    by_bounds (min_time selected) (max_time selected) refl refl
  where
    selected : List Row
    selected = changed u tracking start end rows

    by_bounds :
        (x y : Option ℕ)
        → min_time selected ≡ x
        → max_time selected ≡ y
        → All (Within w.read_start w.read_end) selected
    by_bounds none y p q = absurd (ground arith)
    by_bounds (some a) none p q = absurd (ground arith)
    by_bounds (some a) (some b) p q =
        changed-Within u tracking start end rows a w.read_end w.read_start (ground arith)
          (below-min_time a selected (ground arith))
          (above-max_time w.read_end selected (ground arith))

-- The window that is read holds every changed row of the source table: in what is read, the same rows
-- count as changed as in the whole table.
pub get_processing_window_covers :
    (u : Bool) (lookback : ℕ) (tracking : TrackingState) (start end : Option ℕ) (rows : List Row)
    (w : WindowInfo)
    → get_processing_window u lookback tracking start end rows ≡ some w
    → changed u tracking start end (read_source_window w.read_start w.read_end rows)
      ≡ changed u tracking start end rows
get_processing_window_covers u lookback tracking start end rows w e =
    changed-read_source_window u tracking start end w.read_start w.read_end rows
      (window-Within u lookback tracking start end rows w e)
