-- ===== src/Common/Strip.antt =====
-- Python's `str.strip`, and splitting a text at separators, on the code points of a text.
use Prim.Native.Nat.{ℕ}
use Prim.Native.Char.{Char, code}
use Prim.Native.String.{String}
use mathlib.Core.Path.{◌≡◌, refl}
use mathlib.Core.Bool.{Bool, true, false, ◌&&◌, ◌||◌, not}
use mathlib.Core.List.{List, [], ◌∷◌}
use native.Mathlib.Omega.{arith}
use mathlib.Core.Logic.{inl, inr}
use open_energy_data_server.Common.Tests.{leb, ◌==◌, if◌then◌else◌, Bool-cases}
use open_energy_data_server.Common.Lists.{All}

-- `str.isspace` of one character
unfoldable pub is_space : ℕ → Bool
is_space c =
    (leb 9 c && leb c 13)
    || (leb 28 c && leb c 32)
    || (c == 133 || c == 160)
    || (c == 5760 || (leb 8192 c && leb c 8202))
    || (leb 8232 c && leb c 8233)
    || (c == 8239 || c == 8287)
    || c == 12288

unfoldable pub is_empty : String → Bool
is_empty String.[] = true
is_empty (String.◌∷◌ c s) = false

unfoldable pub lstrip : String → String
unfolding is_space
lstrip String.[] = ""
lstrip (String.◌∷◌ c s) = let rest = lstrip s in if is_space (code c) then rest else String.◌∷◌ c s

unfoldable pub rstrip : String → String
unfolding is_space is_empty
rstrip String.[] = ""
rstrip (String.◌∷◌ c s) =
    let rest = rstrip s in if is_space (code c) && is_empty rest then "" else String.◌∷◌ c rest

unfoldable pub strip : String → String
unfolding lstrip rstrip
strip s = rstrip (lstrip s)

unfoldable pub cons_first : Char → List String → List String
cons_first c [] = String.◌∷◌ c "" ∷ []
cons_first c (s ∷ parts) = String.◌∷◌ c s ∷ parts

-- the parts between the characters that the test accepts
unfoldable pub split_by : (ℕ → Bool) → String → List String
unfolding cons_first
split_by p String.[] = "" ∷ []
split_by p (String.◌∷◌ c s) =
    let rest = split_by p s in if p (code c) then "" ∷ rest else cons_first c rest

-- `[item.strip() for item in parts if item.strip()]`
unfoldable pub stripped_nonempty : List String → List String
unfolding strip is_empty
stripped_nonempty [] = []
stripped_nonempty (s ∷ parts) =
    let rest = stripped_nonempty parts in if is_empty (strip s) then rest else strip s ∷ rest

lstrip_again : (s : String) → lstrip (lstrip s) ≡ lstrip s
unfolding lstrip
lstrip_again String.[] = refl
lstrip_again (String.◌∷◌ c s) = ground (arith, lstrip_again s)

rstrip_again : (s : String) → rstrip (rstrip s) ≡ rstrip s
unfolding rstrip
rstrip_again String.[] = refl
rstrip_again (String.◌∷◌ c s) = ground (arith, rstrip_again s)

-- A text that does not begin with space.
first_kept : String → Bool
first_kept String.[] = true
first_kept (String.◌∷◌ c s) = not (is_space (code c))

lstrip-first_kept : (s : String) → first_kept (lstrip s) ≡ true
unfolding lstrip first_kept
lstrip-first_kept String.[] = refl
lstrip-first_kept (String.◌∷◌ c s) = ground (arith, lstrip-first_kept s)

lstrip_kept : (s : String) → first_kept s ≡ true → lstrip s ≡ s
unfolding lstrip first_kept
lstrip_kept String.[] h = refl
lstrip_kept (String.◌∷◌ c s) h = ground arith

rstrip_kept : (s : String) → first_kept s ≡ true → first_kept (rstrip s) ≡ true
unfolding rstrip first_kept
rstrip_kept String.[] h = refl
rstrip_kept (String.◌∷◌ c s) h = ground arith

pub strip-strip : (s : String) → strip (strip s) ≡ strip s
unfolding strip
strip-strip s =
    rw (lstrip_kept (rstrip (lstrip s)) (rstrip_kept (lstrip s) (lstrip-first_kept s)))
      (rstrip_again (lstrip s))

-- A text with something in it and no space at its ends.
pub record IsToken (s : String) : Type 0 where
  pub filled : is_empty s ≡ false
  pub stripped : strip s ≡ s

pub stripped_nonempty-IsToken : (parts : List String) → All IsToken (stripped_nonempty parts)
unfolding stripped_nonempty
stripped_nonempty-IsToken [] = tt
stripped_nonempty-IsToken (s ∷ parts) = elim (Bool-cases (is_empty (strip s))) [
  | inl e ↦ rw e (stripped_nonempty-IsToken parts)
  | inr e ↦ rw e (record { filled = e; stripped = strip-strip s }, stripped_nonempty-IsToken parts)
]

-- Tests that agree on every character of a text split it alike.
abbrev pub Agree : (ℕ → Bool) → (ℕ → Bool) → String → Type 0
Agree p r String.[] = Unit {0}
Agree p r (String.◌∷◌ c s) = (p (code c) ≡ r (code c)) × Agree p r s

pub split_by-Agree : (p r : ℕ → Bool) (s : String) → Agree p r s → split_by p s ≡ split_by r s
unfolding split_by
split_by-Agree p r String.[] h = refl
split_by-Agree p r (String.◌∷◌ c s) h = rw (h.0, split_by-Agree p r s h.1)
