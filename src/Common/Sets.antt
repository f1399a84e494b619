-- ===== src/Common/Sets.antt =====
-- Python's `set` and `frozenset` of strings, as lists that are read through `contains` only.
use mathlib.Core.Path.{◌≡◌, refl}
use mathlib.Core.Bool.{Bool, true, false, not, ◌&&◌, ◌||◌}
use mathlib.Core.Logic.{inl, inr}
use mathlib.Core.List.{List, [], ◌∷◌}
use Prim.Native.String.{String}
use native.Mathlib.Omega.{arith}
use text.Mathlib.Text.{◌==◌}
use text.Mathlib.TextEquality.{eq_iff}
use open_energy_data_server.Common.Tests.{if◌then◌else◌, Bool-cases}

-- `k in s`
unfoldable pub contains : String → List String → Bool
contains k [] = false
contains k (j ∷ s) = j == k || contains k s

-- `s.add(k)`
unfoldable pub add : String → List String → List String
unfolding contains
add k s = if contains k s then s else k ∷ s

-- `s.discard(k)`
unfoldable pub discard : String → List String → List String
discard k [] = []
discard k (j ∷ s) = let rest = discard k s in if j == k then rest else j ∷ rest

-- `s.update(ks)`
unfoldable pub update : List String → List String → List String
unfolding add
update s [] = s
update s (k ∷ ks) = update (add k s) ks

-- `for k in ks: s.discard(k)`
unfoldable pub discard_all : List String → List String → List String
unfolding discard
discard_all s [] = s
discard_all s (k ∷ ks) = discard_all (discard k s) ks

-- `bool(s & t)`
unfoldable pub intersects : List String → List String → Bool
unfolding contains
intersects [] t = false
intersects (k ∷ s) t = contains k t || intersects s t

pub contains-add :
    (j k : String) (s : List String) → contains j (add k s) ≡ (k == j || contains j s)
unfolding add
contains-add j k s = ground (arith, eq_iff k j)

pub contains-discard :
    (j k : String) (s : List String) → contains j (discard k s) ≡ (not (k == j) && contains j s)
unfolding contains discard
contains-discard j k [] = ground arith
contains-discard j k (i ∷ s) =
    ground (arith, contains-discard j k s, eq_iff i k, eq_iff i j, eq_iff k j)

pub contains-update :
    (j : String) (s ks : List String) → contains j (update s ks) ≡ (contains j ks || contains j s)
unfolding contains update
contains-update j s [] = refl
contains-update j s (k ∷ ks) = ground (arith, contains-update j (add k s) ks, contains-add j k s)

pub contains-discard_all :
    (j : String) (s ks : List String)
    → contains j (discard_all s ks) ≡ (not (contains j ks) && contains j s)
unfolding contains discard_all
contains-discard_all j s [] = refl
contains-discard_all j s (k ∷ ks) =
    ground (arith, contains-discard_all j (discard k s) ks, contains-discard j k s)

pub intersects_sound :
    (j : String) (s t : List String)
    → intersects s t ≡ false
    → contains j s ≡ true
    → contains j t ≡ false
unfolding intersects
intersects_sound j [] t h m = cc
intersects_sound j (k ∷ s) t h m = ground (arith, intersects_sound j s t, eq_iff k j)

pub intersects_complete :
    (s t : List String)
    → intersects s t ≡ true
    → (j : String) × (contains j s ≡ true) × (contains j t ≡ true)
unfolding intersects
intersects_complete [] t h = cc
intersects_complete (k ∷ s) t h = elim (Bool-cases (contains k t)) [
  | inl e ↦ (k, ground (arith, eq_iff k k), e)
  | inr e ↦
      let (j, p, q) = intersects_complete s t (ground arith) in (j, ground (arith, eq_iff k j), q)
]
