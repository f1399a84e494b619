-- ===== src/Fms/Frame/Newest.antt =====
-- Which row of a key `_deduplicate_on_unique_keys` leaves.
use open_energy_data_server.Common.{
  ℕ, String, ◌≡◌, refl, subst, ◌∙◌, true, false, Option, none, some, List, [], ◌∷◌, All, arith,
  str_eq, eq_iff, if◌then◌else◌, Bool-cases, Option-cases, inl, inr,
}
use open_energy_data_server.Fms.Items.{update_time_columns}
use open_energy_data_server.Fms.Frame.{
  Columns, Frame, before, first_in, insert_stable, sort_values, sort_by_update, has_key, keep_last,
  deduplicate_on_unique_keys,
}

module _ {Row : Type 0} (c : Columns Row) where
  -- the last row with a key
  unfoldable pub last_with : String → String → List Row → Option Row
  last_with table k [] = none
  last_with table k (x ∷ xs) = elim (last_with table k xs) [
    | some y ↦ some y
    | none ↦ if str_eq (c.key table x) k then some x else none
  ]

  -- of two rows the later one: the second where the times are the same
  unfoldable pub later_of : String → Row → Option Row → Row
  later_of column x none = x
  later_of column x (some y) = if before (c.stamp column y) (c.stamp column x) then x else y

  -- the row of a key with the latest time, and of several such rows the last
  unfoldable pub newest : String → String → String → List Row → Option Row
  unfolding later_of
  newest column table k [] = none
  newest column table k (x ∷ xs) =
      let rest = newest column table k xs in
      if str_eq (c.key table x) k then some (later_of column x rest) else rest

  -- each row is not earlier than the ones before it
  abbrev Ordered : String → List Row → Type 0
  Ordered column [] = Unit {0}
  Ordered column (x ∷ xs) =
      All (λ y. before (c.stamp column y) (c.stamp column x) ≡ false) xs × Ordered column xs

  before_trans : (a b d : Option ℕ) → before b a ≡ false → before d b ≡ false → before d a ≡ false
  unfolding before
  before_trans none none none h g = refl
  before_trans none none (some d) h g = absurd (ground arith)
  before_trans none (some b) d h g = absurd (ground arith)
  before_trans (some a) none none h g = refl
  before_trans (some a) none (some d) h g = absurd (ground arith)
  before_trans (some a) (some b) none h g = refl
  before_trans (some a) (some b) (some d) h g = ground arith

  before_asym : (a b : Option ℕ) → before a b ≡ true → before b a ≡ false
  unfolding before
  before_asym none b h = absurd (ground arith)
  before_asym (some a) none h = refl
  before_asym (some a) (some b) h = ground arith

  lower_bound :
      (column : String) (x y : Row) (ys : List Row)
      → before (c.stamp column y) (c.stamp column x) ≡ false
      → All (λ z. before (c.stamp column z) (c.stamp column y) ≡ false) ys
      → All (λ z. before (c.stamp column z) (c.stamp column x) ≡ false) ys
  lower_bound column x y [] h v = tt
  lower_bound column x y (z ∷ ys) h v = (
    before_trans (c.stamp column x) (c.stamp column y) (c.stamp column z) h v.0,
    lower_bound column x y ys h v.1,
  )

  insert_bound :
      (column : String) (y x : Row) (ys : List Row)
      → before (c.stamp column x) (c.stamp column y) ≡ false
      → All (λ z. before (c.stamp column z) (c.stamp column y) ≡ false) ys
      → All
          (λ z. before (c.stamp column z) (c.stamp column y) ≡ false)
          (insert_stable c column x ys)
  unfolding insert_stable
  insert_bound column y x [] h v = (h, tt)
  insert_bound column y x (z ∷ ys) h v =
      elim (Bool-cases (before (c.stamp column z) (c.stamp column x))) [
        | inl e ↦ rw e (v.0, insert_bound column y x ys h v.1)
        | inr e ↦ rw e (h, v)
      ]

  insert_stable-Ordered :
      (column : String) (x : Row) (ys : List Row)
      → Ordered column ys
      → Ordered column (insert_stable c column x ys)
  unfolding insert_stable
  insert_stable-Ordered column x [] v = (tt, tt)
  insert_stable-Ordered column x (y ∷ ys) v =
      elim (Bool-cases (before (c.stamp column y) (c.stamp column x))) [
        | inl e ↦ rw e (
          insert_bound column y x ys (before_asym (c.stamp column y) (c.stamp column x) e) v.0,
          insert_stable-Ordered column x ys v.1,
        )
        | inr e ↦ rw e ((e, lower_bound column x y ys e v.0), v)
      ]

  sort_values-Ordered : (column : String) (xs : List Row) → Ordered column (sort_values c column xs)
  unfolding sort_values
  sort_values-Ordered column [] = tt
  sort_values-Ordered column (x ∷ xs) =
      insert_stable-Ordered column x (sort_values c column xs) (sort_values-Ordered column xs)

  last_with_bound :
      (column table k : String) (x y : Row) (ys : List Row)
      → All (λ z. before (c.stamp column z) (c.stamp column x) ≡ false) ys
      → last_with table k ys ≡ some y
      → before (c.stamp column y) (c.stamp column x) ≡ false
  unfolding last_with
  last_with_bound column table k x y [] v h = absurd (ground arith)
  last_with_bound column table k x y (z ∷ ys) v h = elim (Option-cases (last_with table k ys)) [
    | inl e ↦ ground (arith, v.0)
    | inr (w, e) ↦ last_with_bound column table k x y ys v.1 (ground arith)
  ]

  last_with-insert_stable :
      (column table k : String) (x : Row) (ys : List Row)
      → Ordered column ys
      → last_with table k (insert_stable c column x ys) ≡ (
          if str_eq (c.key table x) k
          then some (later_of column x (last_with table k ys))
          else last_with table k ys)
  unfolding last_with insert_stable later_of
  last_with-insert_stable column table k x [] v = refl
  last_with-insert_stable column table k x (y ∷ ys) v =
      elim (Bool-cases (before (c.stamp column y) (c.stamp column x))) [
        | inl e ↦ rw e (ground (arith, e, last_with-insert_stable column table k x ys v.1))
        | inr e ↦ elim (Option-cases (last_with table k ys)) [
          | inl q ↦ rw e (ground (arith, e, q))
          | inr (z, q) ↦
              let bound =
                last_with_bound column table k x z ys (lower_bound column x y ys e v.0) q in
              rw e (ground (arith, q, bound))
        ]
      ]

  last_with-sort_values :
      (column table k : String) (xs : List Row)
      → last_with table k (sort_values c column xs) ≡ newest column table k xs
  unfolding sort_values newest last_with
  last_with-sort_values column table k [] = refl
  last_with-sort_values column table k (x ∷ xs) =
      last_with-insert_stable column table k x (sort_values c column xs)
        (sort_values-Ordered column xs)
      ∙ rw (last_with-sort_values column table k xs) refl

  pub has_key-last_with :
      (table k : String) (xs : List Row)
      → has_key c table k xs ≡ false
      → last_with table k xs ≡ none
  unfolding has_key last_with
  has_key-last_with table k [] h = refl
  has_key-last_with table k (x ∷ xs) h = ground (arith, has_key-last_with table k xs)

  pub last_with-has_key :
      (table k : String) (xs : List Row)
      → has_key c table k xs ≡ true
      → (y : Row) × (last_with table k xs ≡ some y)
  unfolding has_key last_with
  last_with-has_key table k [] h = absurd (ground arith)
  last_with-has_key table k (x ∷ xs) h = elim (Option-cases (last_with table k xs)) [
    | inr (y, e) ↦ (y, ground arith)
    | inl e ↦ elim (Bool-cases (has_key c table k xs)) [
      | inl q ↦ let (y, f) = last_with-has_key table k xs q in absurd (ground (arith, e, f))
      | inr q ↦ (x, ground (arith, e, q, h))
    ]
  ]

  found_key :
      (table k : String) (x : Row) (xs : List Row)
      → str_eq (c.key table x) k ≡ true
      → has_key c table (c.key table x) xs ≡ true
      → (y : Row) × (last_with table k xs ≡ some y)
  found_key table k x xs q h =
      let named : c.key table x ≡ k = ground (arith, eq_iff (c.key table x) k) in
      last_with-has_key table k xs (subst (λ j. has_key c table j xs ≡ true) named h)

  last_with-keep_last :
      (table k : String) (xs : List Row)
      → last_with table k (keep_last c table xs) ≡ last_with table k xs
  unfolding keep_last last_with has_key
  last_with-keep_last table k [] = refl
  last_with-keep_last table k (x ∷ xs) = elim (Bool-cases (has_key c table (c.key table x) xs)) [
    | inl e ↦ elim (Bool-cases (str_eq (c.key table x) k)) [
      | inl q ↦ rw e (
          last_with-keep_last table k xs
          ∙ let (y, f) = found_key table k x xs q e in ground (arith, f))
      | inr q ↦ rw e (last_with-keep_last table k xs ∙ ground (arith, q))
    ]
    | inr e ↦ rw e (ground (arith, last_with-keep_last table k xs))
  ]

  -- a key stands once
  abbrev pub KeysDistinct : String → List Row → Type 0
  KeysDistinct table [] = Unit {0}
  KeysDistinct table (x ∷ xs) = (has_key c table (c.key table x) xs ≡ false) × KeysDistinct table xs

  has_key-keep_last :
      (table k : String) (xs : List Row)
      → has_key c table k xs ≡ false
      → has_key c table k (keep_last c table xs) ≡ false
  unfolding has_key keep_last
  has_key-keep_last table k [] h = refl
  has_key-keep_last table k (x ∷ xs) h = ground (arith, has_key-keep_last table k xs)

  pub keep_last-KeysDistinct :
      (table : String) (xs : List Row) → KeysDistinct table (keep_last c table xs)
  unfolding keep_last
  keep_last-KeysDistinct table [] = tt
  keep_last-KeysDistinct table (x ∷ xs) = elim (Bool-cases (has_key c table (c.key table x) xs)) [
    | inl e ↦ rw e (keep_last-KeysDistinct table xs)
    | inr e ↦ rw e (has_key-keep_last table (c.key table x) xs e, keep_last-KeysDistinct table xs)
  ]

  -- the row of a key that a dataframe stands for
  unfoldable pub newest_of : String → String → Frame Row → Option Row
  unfolding newest last_with first_in
  newest_of table k df = elim (first_in df.columns update_time_columns) [
    | none ↦ last_with table k df.rows
    | some column ↦ newest column table k df.rows
  ]

  -- Without duplicates a dataframe has each key once, and of the rows of a key the one with the
  -- latest update time, the last of several such rows; without an update column, the last row.
  pub last_with-deduplicate_on_unique_keys :
      (table k : String) (df : Frame Row)
      → KeysDistinct table (deduplicate_on_unique_keys c table df).rows
        × (last_with table k (deduplicate_on_unique_keys c table df).rows ≡ newest_of table k df)
  unfolding deduplicate_on_unique_keys sort_by_update newest_of
  last_with-deduplicate_on_unique_keys table k df = (
    keep_last-KeysDistinct table _,
    last_with-keep_last table k _ ∙ elim (Option-cases (first_in df.columns update_time_columns)) [
      | inl e ↦ rw (e, newest_of) refl
      | inr (column, e) ↦ rw (e, newest_of) (last_with-sort_values column table k df.rows)
    ],
  )
