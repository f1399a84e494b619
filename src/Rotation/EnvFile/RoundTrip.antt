-- ===== src/Rotation/EnvFile/RoundTrip.antt =====
-- Rendering the lines of an environment file and loading them again.
use open_energy_data_server.Common.{
  ◌≡◌, refl, ◌∙◌, ap, String, Bool, true, false, ◌||◌, Option, none, some, List, [], ◌∷◌, ◌++◌,
  if◌then◌else◌, arith, inl, inr, Bool-cases, Option-cases, str_eq, eq_iff,
}
use open_energy_data_server.Common.Strip.{strip}
use open_energy_data_server.Common.Text.{◌<>◌}
use open_energy_data_server.Common.Sets.{contains}
use open_energy_data_server.Common.Dict
use open_energy_data_server.Common.Dict.{Dict, get-put, get_absent}
use open_energy_data_server.Rotation.EnvFile.{
  split_at_equals, store_line, load_line, load_lines, is_identifier, env_line_key, render_line,
  render_lines, updated_keys, missing_lines, render_env_lines,
}
use open_energy_data_server.Rotation.EnvFile.Laws.{load_line-entry}

-- the key of the line is the given one
is_key : String → Option String → Bool
is_key k none = false
is_key k (some j) = str_eq j k

pub env_key-identifier : (l j : String) → env_line_key l ≡ some j → is_identifier j ≡ true
unfolding env_line_key
env_key-identifier l j e = by_split (split_at_equals l) refl
  where
    by_split : (o : Option (String × String)) → split_at_equals l ≡ o → is_identifier j ≡ true
    by_split none q = absurd (ground arith)
    by_split (some (key, value)) q = elim (Bool-cases (is_identifier (strip key))) [
      | inl r ↦ ground arith
      | inr r ↦ absurd (ground arith)
    ]

-- a line with another key leaves the value of a key as it was
load_line-other :
    (k l : String) (values : Dict String)
    → is_identifier k ≡ true
    → is_key k (env_line_key l) ≡ false
    → Dict.get k (load_line l values) ≡ Dict.get k values
unfolding load_line store_line env_line_key is_key
load_line-other k l values good other = by_split (split_at_equals l) refl
  where
    by_split :
        (o : Option (String × String))
        → split_at_equals l ≡ o
        → Dict.get k (load_line l values) ≡ Dict.get k values
    by_split none q = ground arith
    by_split (some (key, value)) q =
        ground (arith, eq_iff (strip key) k, get-put (strip key) k value values)

get-rendered :
    (k v : String) (updates : Dict String) (l : String) (values : Dict String)
    → is_identifier k ≡ true
    → Dict.get k updates ≡ some v
    → Dict.get k (load_line (render_line updates l) values)
      ≡ (if is_key k (env_line_key l) then some v else Dict.get k values)
unfolding render_line is_key
get-rendered k v updates l values good held = by_key (env_line_key l) refl
  where
    by_key :
        (o : Option String)
        → env_line_key l ≡ o
        → Dict.get k (load_line (render_line updates l) values)
          ≡ (if is_key k (env_line_key l) then some v else Dict.get k values)
    by_key none q = ground (arith, load_line-other k l values good)
    by_key (some j) q = elim (Option-cases (Dict.get j updates)) [
      | inl r ↦ ground (arith, eq_iff j k, load_line-other k l values good)
      | inr (w, r) ↦ ground (
        arith,
        eq_iff j k,
        load_line-entry j w values (env_key-identifier l j q),
        get-put j k w values,
      )
    ]

has_held :
    (k v : String) (updates : Dict String) → Dict.get k updates ≡ some v → Dict.has k updates ≡ true
has_held k v updates held = elim (Bool-cases (Dict.has k updates)) [
  | inl e ↦ e
  | inr e ↦ absurd (ground (arith, get_absent k updates e))
]

contains-updated_keys :
    (k v : String) (updates : Dict String) (l : String) (lines : List String)
    → Dict.get k updates ≡ some v
    → contains k (updated_keys updates (l ∷ lines))
      ≡ is_key k (env_line_key l) || contains k (updated_keys updates lines)
unfolding updated_keys contains is_key
contains-updated_keys k v updates l lines held = by_key (env_line_key l) refl
  where
    by_key :
        (o : Option String)
        → env_line_key l ≡ o
        → contains k (updated_keys updates (l ∷ lines))
          ≡ is_key k (env_line_key l) || contains k (updated_keys updates lines)
    by_key none q = ground arith
    by_key (some j) q = ground (arith, eq_iff j k, has_held k v updates held)

get-rendered_lines :
    (k v : String) (updates : Dict String) (lines : List String) (values : Dict String)
    → is_identifier k ≡ true
    → Dict.get k updates ≡ some v
    → Dict.get k (load_lines (render_lines updates lines) values)
      ≡ (if contains k (updated_keys updates lines) then some v else Dict.get k values)
unfolding load_lines render_lines updated_keys contains
get-rendered_lines k v updates [] values good held = refl
get-rendered_lines k v updates (l ∷ lines) values good held =
    let again =
      get-rendered_lines k v updates lines (load_line (render_line updates l) values) good held in
    ground (
      arith,
      again,
      contains-updated_keys k v updates l lines held,
      get-rendered k v updates l values good held,
    )

load_lines-append :
    (xs ys : List String) (values : Dict String)
    → load_lines (xs ++ ys) values ≡ load_lines ys (load_lines xs values)
unfolding load_lines
load_lines-append [] ys values = refl
load_lines-append (x ∷ xs) ys values = load_lines-append xs ys (load_line x values)

-- Every key is one that a line can assign, and no key comes twice.
abbrev pub AreUpdates : Dict String → Type 0
AreUpdates [] = Unit {0}
AreUpdates ((key, value) ∷ updates) =
    (is_identifier key ≡ true) × (Dict.has key updates ≡ false) × AreUpdates updates

-- after the lines of the missing keys, a key that was not updated has its value
get-missing_lines :
    (k : String) (updated : List String) (updates values : Dict String)
    → AreUpdates updates
    → Dict.get k (load_lines (missing_lines updated updates) values) ≡ (
        if contains k updated
        then Dict.get k values
        else if Dict.has k updates
        then Dict.get k updates
        else Dict.get k values)
unfolding load_lines missing_lines Dict.get Dict.has
get-missing_lines k updated [] values u = ground arith
get-missing_lines k updated ((key, value) ∷ updates) values u =
    let same = get-missing_lines k updated updates values u.2 in
    let added = get-missing_lines k updated updates (load_line (key <> "=" <> value) values) u.2 in
    ground (
      arith,
      eq_iff key k,
      same,
      added,
      u.1,
      load_line-entry key value values u.0,
      get-put key k value values,
    )

-- a key of the updates is one that a line can assign
pub updates-identifier :
    (k : String) (updates : Dict String)
    → AreUpdates updates
    → Dict.has k updates ≡ true
    → is_identifier k ≡ true
unfolding Dict.has
updates-identifier k [] u h = absurd (ground arith)
updates-identifier k ((key, value) ∷ updates) u h =
    ground (arith, eq_iff key k, u.0, updates-identifier k updates u.2)

-- the same of the lines, before they are joined
pub get-rendered_env_lines :
    (k v : String) (lines : List String) (updates : Dict String)
    → AreUpdates updates
    → Dict.get k updates ≡ some v
    → Dict.get k (load_lines (render_env_lines lines updates) []) ≡ some v
unfolding render_env_lines
get-rendered_env_lines k v lines updates u held =
    let there = has_held k v updates held in
    let good = updates-identifier k updates u there in
    ap (Dict.get k) (
      load_lines-append (render_lines updates lines)
        (missing_lines (updated_keys updates lines) updates) [])
    ∙ get-missing_lines k (updated_keys updates lines) updates
        (load_lines (render_lines updates lines) []) u
    ∙ ground (arith, there, held, get-rendered_lines k v updates lines [] good held)
