-- ===== src/Common/Dict.antt =====
-- Python's `dict` with string keys: an association list in insertion order.
use mathlib.Core.Path.{◌≡◌, refl}
use mathlib.Core.Bool.{Bool, true, false}
use mathlib.Core.Option.{Option, none, some}
use mathlib.Core.Logic.{inl, inr}
use mathlib.Core.List.{List, [], ◌∷◌, ◌++◌}
use Prim.Native.String.{String}
use native.Mathlib.Omega.{arith}
use text.Mathlib.Text.{◌==◌}
use text.Mathlib.TextEquality.{eq_iff}
use open_energy_data_server.Common.Tests.{if◌then◌else◌, Bool-cases}

abbrev pub Dict {ℓ} : Type ℓ → Type ℓ
Dict V = List (String × V)

module _ {ℓ} {V : Type ℓ} where
  -- `d.get(k)`
  unfoldable pub get : String → Dict V → Option V
  get k [] = none
  get k ((j, v) ∷ d) = if j == k then some v else get k d

  -- `k in d`
  unfoldable pub has : String → Dict V → Bool
  has k [] = false
  has k ((j, v) ∷ d) = if j == k then true else has k d

  -- `d[k] = v`: a key that is there keeps its place
  unfoldable pub put : String → V → Dict V → Dict V
  put k v [] = (k, v) ∷ []
  put k v ((j, w) ∷ d) = if j == k then (k, v) ∷ d else (j, w) ∷ put k v d

  -- `d.pop(k, …)`, for its effect on a dictionary, whose keys are distinct
  unfoldable pub pop : String → Dict V → Dict V
  pop k [] = []
  pop k ((j, w) ∷ d) = if j == k then d else (j, w) ∷ pop k d

  pub get-put :
      (k j : String) (v : V) (d : Dict V) → get j (put k v d) ≡ (if k == j then some v else get j d)
  unfolding get put
  get-put k j v [] = refl
  get-put k j v ((i, w) ∷ d) = ground (arith, eq_iff k j, eq_iff i k, eq_iff i j, get-put k j v d)

  pub has-put :
      (k j : String) (v : V) (d : Dict V) → has j (put k v d) ≡ (if k == j then true else has j d)
  unfolding has put
  has-put k j v [] = refl
  has-put k j v ((i, w) ∷ d) = ground (arith, eq_iff k j, eq_iff i k, eq_iff i j, has-put k j v d)

  pub get_absent : (k : String) (d : Dict V) → has k d ≡ false → get k d ≡ none
  unfolding get has
  get_absent k [] h = refl
  get_absent k ((j, v) ∷ d) h = ground (arith, get_absent k d)

  pub put_absent :
      (k : String) (v : V) (d : Dict V) → has k d ≡ false → put k v d ≡ d ++ (k, v) ∷ []
  unfolding put has
  put_absent k v [] h = refl
  put_absent k v ((j, w) ∷ d) h = ground (arith, put_absent k v d)

  pub pop_absent : (k : String) (d : Dict V) → has k d ≡ false → pop k d ≡ d
  unfolding pop has
  pop_absent k [] h = refl
  pop_absent k ((j, w) ∷ d) h = ground (arith, pop_absent k d)

  pub has-cons :
      (i j : String) (v : V) (d : Dict V)
      → has i ((j, v) ∷ d) ≡ false
      → ((j == i) ≡ false) × (has i d ≡ false)
  unfolding has
  has-cons i j v d h = (ground arith, ground arith)

  -- a dictionary holds a key once
  abbrev pub IsUnique : Dict V → Type 0
  IsUnique [] = Unit {0}
  IsUnique ((k, v) ∷ d) = (has k d ≡ false) × IsUnique d

  pub get-pop_other : (k j : String) (d : Dict V) → (k == j) ≡ false → get j (pop k d) ≡ get j d
  unfolding get pop
  get-pop_other k j [] h = refl
  get-pop_other k j ((i, w) ∷ d) h = ground (arith, eq_iff i k, eq_iff i j, get-pop_other k j d h)

  has-pop_absent : (k j : String) (d : Dict V) → has j d ≡ false → has j (pop k d) ≡ false
  unfolding has pop
  has-pop_absent k j [] h = refl
  has-pop_absent k j ((i, w) ∷ d) h = ground (arith, has-pop_absent k j d)

  pub has-pop_same : (k : String) (d : Dict V) → IsUnique d → has k (pop k d) ≡ false
  unfolding has pop
  has-pop_same k [] u = refl
  has-pop_same k ((i, w) ∷ d) u = ground (arith, u.0, eq_iff i k, has-pop_same k d u.1)

  pub pop-IsUnique : (k : String) (d : Dict V) → IsUnique d → IsUnique (pop k d)
  unfolding pop
  pop-IsUnique k [] u = tt
  pop-IsUnique k ((i, w) ∷ d) u = elim (Bool-cases (i == k)) [
    | inl e ↦ rw e u.1
    | inr e ↦ rw e (has-pop_absent k i d u.0, pop-IsUnique k d u.1)
  ]

  pub put-IsUnique : (k : String) (v : V) (d : Dict V) → IsUnique d → IsUnique (put k v d)
  unfolding put has
  put-IsUnique k v [] u = (refl, tt)
  put-IsUnique k v ((i, w) ∷ d) u = elim (Bool-cases (i == k)) [
    | inl e ↦ rw e (ground (arith, u.0, eq_iff i k), u.1)
    | inr e ↦
        rw e (ground (arith, u.0, eq_iff k i, eq_iff i k, has-put k i v d), put-IsUnique k v d u.1)
  ]

  pub get_present : (k : String) (d : Dict V) → has k d ≡ true → (v : V) × (get k d ≡ some v)
  unfolding get has
  get_present k [] h = absurd (ground arith)
  get_present k ((j, v) ∷ d) h = elim (Bool-cases (j == k)) [
    | inl e ↦ (v, ground arith)
    | inr e ↦ let (w, q) = get_present k d (ground arith) in (w, ground arith)
  ]

  pub has_of_get : (k : String) (v : V) (d : Dict V) → get k d ≡ some v → has k d ≡ true
  unfolding get has
  has_of_get k v [] h = absurd (ground arith)
  has_of_get k v ((j, w) ∷ d) h = ground (arith, has_of_get k v d)
